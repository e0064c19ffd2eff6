-- ===== src/Scheduler/Plan.antt =====
-- `EncounterSchedulerV1::schedule`.
pub mod Ranking
pub mod OrderFree
pub mod Selection
pub mod Budget
use aethos_linux.Base.{ℕ, List, [], ◌∷◌, Option, none, some, map}
use mathlib.Core.Option
use aethos_linux.Base.Result.{Result, ok, err, ◌>>=◌, ◌>>◌}
use aethos_linux.Base.Sort.{sort_by}
use aethos_linux.Scheduler.Float.{FloatOps}
use aethos_linux.Scheduler.Types.{
  BudgetProfile, CargoItem, EncounterSchedulerV1, EncounterSchedulerResult, SchedulerError,
  ScoredItem, no_eligible_items, no_tie,
}
use aethos_linux.Scheduler.Validate.{validate_budget, validate_and_filter_eligible}
use aethos_linux.Scheduler.Score.{score, clamp01}
use aethos_linux.Scheduler.Rank.{ranks_before, rank_from, global_tie}
use aethos_linux.Scheduler.Select.{nothing_selected, select_from, mark_selected, pick}

module _ {F : Type 0} (fl : FloatOps F) where
  -- `ranked_scored`: the eligible items scored and sorted.
  unfoldable pub ranking :
      EncounterSchedulerV1 → BudgetProfile F → ℕ → List (CargoItem F) → List (ScoredItem F)
  ranking self budget now_unix_ms eligible =
      sort_by ranks_before (map (λ item. score fl self item budget now_unix_ms) eligible)

  -- The rest of `schedule` on a ranking that is not empty.
  unfoldable pub plan : BudgetProfile F → List (ScoredItem F) → EncounterSchedulerResult F
  plan budget ranked_scored =
      let ranked_items = rank_from none ranked_scored in
      let cap = Option.map (clamp01 fl) budget.durable_cargo_ratio_cap in
      let selection = select_from fl budget cap nothing_selected 0 ranked_items in
      let ranked_with_selection = mark_selected selection.0 0 ranked_items in
      record {
        score_breakdowns = map (λ ranked. ranked.score_breakdown) ranked_with_selection;
        ranked_items = ranked_with_selection;
        selected_prefix = pick selection.0 ranked_with_selection;
        stop_reason = selection.1;
        tie_break_reason = global_tie no_tie ranked_items;
      }

  abbrev pub no_plan : EncounterSchedulerResult F
  no_plan = record {
    ranked_items = [];
    selected_prefix = [];
    score_breakdowns = [];
    stop_reason = no_eligible_items;
    tie_break_reason = no_tie;
  }

  -- `validated.is_empty()` or not.
  unfoldable pub plan_eligible :
      EncounterSchedulerV1 → BudgetProfile F → ℕ → List (CargoItem F) → EncounterSchedulerResult F
  unfolding ranking plan
  plan_eligible self budget now_unix_ms [] = no_plan
  plan_eligible self budget now_unix_ms (item ∷ validated) =
      plan budget (ranking self budget now_unix_ms (item ∷ validated))

  unfoldable pub schedule :
      EncounterSchedulerV1
      → BudgetProfile F
      → ℕ
      → List (CargoItem F)
      → Result SchedulerError (EncounterSchedulerResult F)
  unfolding validate_budget validate_and_filter_eligible plan_eligible
  schedule self budget now_unix_ms cargo_items = do
    validate_budget budget
    validated ← validate_and_filter_eligible self cargo_items now_unix_ms
    ok (plan_eligible self budget now_unix_ms validated)
