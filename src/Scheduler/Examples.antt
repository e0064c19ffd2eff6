-- ===== src/Scheduler/Examples.antt =====
-- Runs of the scheduler on two cargo items, with scores as exact numbers of millionths.
use native.Mathlib.Nat.{ℕ_set}
use mathlib.Core.List.{Perm}
use mathlib.Core.List.Perm
use aethos_linux.Base.{
  ℕ, List, [], ◌∷◌, ◌≡◌, refl, ◌≤◌, ◌<◌, ◌↔◌, i32_max, map, saturating_add, none, replicate, false,
}
use aethos_linux.Base.Int.{pos}
use aethos_linux.Base.Text.{contains, text_eq, text_lt}
use aethos_linux.Base.Result.{ok}
use aethos_linux.Scheduler.Float.{millionths}
use aethos_linux.Scheduler.Types.{
  BudgetProfile, CargoItem, ScoredItem, EncounterSchedulerResult, new_budget, new_scheduler,
  budget_items_exhausted,
}
use aethos_linux.Base.Sort.{sort_by}
use aethos_linux.Base.Sort.Laws.{IsSorted}
use aethos_linux.Scheduler.Validate.{refuse_below, eligible_from, validate_item, is_valid_item_id}
use aethos_linux.Scheduler.Score.{score}
use aethos_linux.Scheduler.Score.Bounds.{score_numerator-le}
use aethos_linux.Scheduler.Rank.{ranks_before, rank_from}
use aethos_linux.Scheduler.Rank.Order.{ranks_before-total}
use aethos_linux.Scheduler.Select.{select_from, mark_selected, pick, over_duration, over_ratio}
use aethos_linux.Scheduler.Select.Budget.{cargo_items}
use aethos_linux.Scheduler.Plan.{plan_eligible, schedule}
use aethos_linux.Scheduler.Plan.Ranking.{
  IsValidInput, eligible_items, scored, schedule-ok_iff, schedule_ranks,
}
use aethos_linux.Scheduler.Plan.OrderFree.{schedule-order_free}
use aethos_linux.Scheduler.Plan.Selection.{Selects, schedule-Selects}
use aethos_linux.Scheduler.Plan.Budget.{Obeys, schedule-Obeys}

abbrev budget : BudgetProfile ℕ
budget = new_budget (pos 1) (pos 4_096)

abbrev item : ℕ → ℕ → CargoItem ℕ
item digit size = record {
  item_id = replicate 64 digit;
  tier = pos 2;
  size_bytes = pos size;
  expiry_at_unix_ms = 900_000;
  known_replica_count = none;
  target_replica_count = none;
  durably_stored = none;
  relay_ingested = none;
  receipt_coverage = none;
  last_forwarded_at_unix_ms = none;
  proximity_class = none;
  explicit_user_initiated = none;
  content_class_score = none;
  destination_rank = pos 0;
  estimated_duration_ms = none;
}

abbrev items : List (CargoItem ℕ)
items = item 98 700 ∷ item 97 700 ∷ []

abbrev swapped : List (CargoItem ℕ)
swapped = item 97 700 ∷ item 98 700 ∷ []

abbrev outcome : EncounterSchedulerResult ℕ
outcome = plan_eligible millionths new_scheduler budget 1_000 items

abbrev outcome_swapped : EncounterSchedulerResult ℕ
outcome_swapped = plan_eligible millionths new_scheduler budget 1_000 swapped

schedules : schedule millionths new_scheduler budget 1_000 items ≡ ok outcome
unfolding schedule refuse_below eligible_from validate_item is_valid_item_id contains text_eq
    saturating_add
schedules = refl

schedules_swapped : schedule millionths new_scheduler budget 1_000 swapped ≡ ok outcome_swapped
unfolding schedule refuse_below eligible_from validate_item is_valid_item_id contains text_eq
    saturating_add
schedules_swapped = refl

-- The order of identifiers decides, and one item is selected.
selects_first :
    (map (λ r. r.cargo_item) outcome.selected_prefix ≡ item 98 700 ∷ [])
    × (outcome.stop_reason ≡ budget_items_exhausted)
unfolding plan_eligible score sort_by ranks_before text_lt text_eq contains rank_from select_from
    mark_selected pick over_duration over_ratio
selects_first = (refl, refl)

schedule-ok_iff_example :
    ((r : EncounterSchedulerResult ℕ) × (schedule millionths new_scheduler budget 1_000 items
        ≡ ok r))
    ↔ IsValidInput budget items
schedule-ok_iff_example = schedule-ok_iff millionths new_scheduler budget 1_000 items

schedule_ranks_example :
    Perm (cargo_items outcome.ranked_items) (eligible_items new_scheduler 1_000 items)
    × IsSorted ranks_before
        (map (scored millionths new_scheduler budget 1_000) (cargo_items outcome.ranked_items))
schedule_ranks_example =
    schedule_ranks millionths new_scheduler budget 1_000 items outcome schedules

schedule-order_free_example : outcome ≡ outcome_swapped
schedule-order_free_example =
    schedule-order_free ℕ_set millionths new_scheduler budget 1_000 items swapped outcome
      outcome_swapped (Perm.swap _ _ []) schedules schedules_swapped

schedule-Selects_example : Selects outcome
schedule-Selects_example =
    schedule-Selects millionths new_scheduler budget 1_000 items outcome schedules

schedule-Obeys_example : Obeys millionths budget outcome
schedule-Obeys_example =
    schedule-Obeys millionths new_scheduler budget 1_000 items outcome schedules

score_numerator-le_example :
    ((score millionths new_scheduler (item 97 700) budget 1_000).score_breakdown.score_numerator
      ≤ 100_000_000)
    × ((score millionths new_scheduler (item 97 700) budget 1_000).score_breakdown.score_numerator
        < i32_max)
score_numerator-le_example = score_numerator-le millionths (item 97 700) budget 1_000

abbrev earlier : ScoredItem ℕ
earlier = scored millionths new_scheduler budget 1_000 (item 97 700)

ties : ranks_before earlier earlier ≡ false
unfolding ranks_before score text_lt
ties = refl

ranks_before-total_example : earlier.cargo_item.item_id ≡ earlier.cargo_item.item_id
ranks_before-total_example = ranks_before-total earlier earlier ties ties
