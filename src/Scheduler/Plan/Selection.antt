-- ===== src/Scheduler/Plan/Selection.antt =====
-- The selection of `schedule` against its ranking.
use aethos_linux.Base.{
  ℕ, zero, suc, ◌+◌, ◌-◌, ◌≤◌, ◌≡◌, refl, sym, ap, ◌∙◌, subst, List, [], ◌∷◌, ◌++◌, Option, none,
  some, arith, map, length, length-take, take, replicate, All,
}
use mathlib.Core.Option
use mathlib.Core.Path.{ap₂}
use mathlib.Core.List.{tail-eq_of_cons-eq}
use aethos_linux.Base.Int.{ℤ, pos, ◌≤ℤ◌}
use aethos_linux.Base.Result.{ok}
use aethos_linux.Scheduler.Float.{FloatOps}
use aethos_linux.Scheduler.Types.{
  BudgetProfile, CargoItem, EncounterSchedulerV1, EncounterSchedulerResult, RankedCargoItem,
  ScoredItem, EncounterSelectionReason, EncounterSelectionStopReason, selected_prefix,
}
use aethos_linux.Scheduler.Validate.Accepts.{IsAtLeast}
use aethos_linux.Scheduler.Score.{clamp01}
use aethos_linux.Scheduler.Rank.{rank_from}
use aethos_linux.Scheduler.Select.{nothing_selected, select_from, mark_selected, pick}
use aethos_linux.Scheduler.Select.Prefix.{
  mark_first, mark_selected-first, pick-range, select_from-range, length-select_from-le,
}
use aethos_linux.Scheduler.Select.Budget.{
  IsMeasured, cargo_items, Outcome, select_from-Outcome, IsWithin,
}
use aethos_linux.Scheduler.Plan.{ranking, plan, plan_eligible, schedule}
use aethos_linux.Scheduler.Plan.Ranking.{eligible_items, schedule-eq, cargo-rank_from}

module _ {F : Type 0} where
  abbrev pub selection_reasons : List (RankedCargoItem F) → List (Option EncounterSelectionReason)
  selection_reasons = map (λ r. r.selection_reason)

  -- The prefix of `ranked` that is marked is the selection.
  pub record Selects (r : EncounterSchedulerResult F) : Type 0 where
    pub is_prefix : r.selected_prefix ≡ take (length r.selected_prefix) r.ranked_items
    pub marked :
        selection_reasons r.ranked_items
        ≡ replicate (length r.selected_prefix) (some selected_prefix)
          ++ replicate (length r.ranked_items - length r.selected_prefix) none

  cargo-mark_first :
      (n : ℕ) (l : List (RankedCargoItem F)) → cargo_items (mark_first n l) ≡ cargo_items l
  cargo-mark_first zero l = refl
  cargo-mark_first (suc n) [] = refl
  cargo-mark_first (suc n) (r ∷ l) = ap (◌∷◌ r.cargo_item) (cargo-mark_first n l)

  length-mark_first : (n : ℕ) (l : List (RankedCargoItem F)) → length (mark_first n l) ≡ length l
  length-mark_first zero l = refl
  length-mark_first (suc n) [] = refl
  length-mark_first (suc n) (r ∷ l) = ap suc (length-mark_first n l)

  pub cargo-take :
      (n : ℕ) (l : List (RankedCargoItem F)) → cargo_items (take n l) ≡ take n (cargo_items l)
  cargo-take zero l = refl
  cargo-take (suc n) [] = refl
  cargo-take (suc n) (r ∷ l) = ap (◌∷◌ r.cargo_item) (cargo-take n l)

  reasons-rank_from :
      (previous : Option (ScoredItem F)) (l : List (ScoredItem F))
      → selection_reasons (rank_from previous l) ≡ replicate (length (rank_from previous l)) none
  unfolding rank_from
  reasons-rank_from previous [] = refl
  reasons-rank_from previous (s ∷ l) = ap (◌∷◌ none) (reasons-rank_from (some s) l)

  reasons-mark_first :
      (n m : ℕ) (l : List (RankedCargoItem F))
      → length l ≡ n + m
      → selection_reasons l ≡ replicate (length l) none
      → selection_reasons (mark_first n l) ≡ replicate n (some selected_prefix) ++ replicate m none
  reasons-mark_first zero m l h e = e ∙ ap (λ k. replicate k none) (omega arith)
  reasons-mark_first (suc n) m [] h e = absurd (omega arith)
  reasons-mark_first (suc n) m (r ∷ l) h e =
      ap (◌∷◌ (some selected_prefix))
        (reasons-mark_first n m l (omega arith) (tail-eq_of_cons-eq e))

pub IsWithin-zero : (limit : Option ℤ) → IsWithin limit 0
IsWithin-zero none = tt
IsWithin-zero (some limit) = omega arith

module _ {F : Type 0} (fl : FloatOps F) (budget : BudgetProfile F) (l : List (ScoredItem F)) where
  abbrev pub ranked : List (RankedCargoItem F)
  ranked = rank_from none l

  abbrev pub selection : List ℕ × EncounterSelectionStopReason
  selection =
      select_from fl budget (Option.map (clamp01 fl) budget.durable_cargo_ratio_cap)
        nothing_selected 0 ranked

  abbrev pub count : ℕ
  count = length selection.0

  plan-ranked : (plan fl budget l).ranked_items ≡ mark_first count ranked
  unfolding plan
  plan-ranked =
      ap (λ indices. mark_selected indices 0 ranked)
        (select_from-range fl budget _ nothing_selected 0 ranked)
      ∙ mark_selected-first count ranked

  plan-picked : (plan fl budget l).selected_prefix ≡ take count (plan fl budget l).ranked_items
  unfolding plan
  plan-picked =
      ap (λ indices. pick indices (mark_selected selection.0 0 ranked))
        (select_from-range fl budget _ nothing_selected 0 ranked)
      ∙ pick-range 0 count (mark_selected selection.0 0 ranked)

  count-le : count ≤ length ranked
  count-le = length-select_from-le fl budget _ nothing_selected 0 ranked

  length-plan-ranked : length (plan fl budget l).ranked_items ≡ length ranked
  length-plan-ranked = ap length plan-ranked ∙ length-mark_first count ranked

  pub length-plan-selected : length (plan fl budget l).selected_prefix ≡ count
  length-plan-selected = omega (
    arith,
    ap length plan-picked,
    length-take count (plan fl budget l).ranked_items,
    length-plan-ranked,
    count-le,
  )

  pub cargo-plan-ranked : cargo_items (plan fl budget l).ranked_items ≡ cargo_items ranked
  cargo-plan-ranked = ap cargo_items plan-ranked ∙ cargo-mark_first count ranked

  pub cargo-plan-selected :
      cargo_items (plan fl budget l).selected_prefix ≡ take count (cargo_items ranked)
  cargo-plan-selected =
      ap cargo_items plan-picked
      ∙ cargo-take count (plan fl budget l).ranked_items
      ∙ ap (take count) cargo-plan-ranked

  pub plan-stop : (plan fl budget l).stop_reason ≡ selection.1
  unfolding plan
  plan-stop = refl

  plan-Selects : Selects (plan fl budget l)
  plan-Selects = record {
    is_prefix =
        plan-picked ∙ ap (λ n. take n (plan fl budget l).ranked_items) (sym length-plan-selected);
    marked =
        ap selection_reasons plan-ranked
        ∙ reasons-mark_first count (length ranked - count) ranked (omega (arith, count-le))
            (reasons-rank_from none l)
        ∙ ap₂ (λ n m. replicate n (some selected_prefix) ++ replicate (m - n) none)
            (sym length-plan-selected) (sym length-plan-ranked);
  }

  -- The selection fits, and the stop reason says why it is no longer.
  pub plan-Outcome :
      (pos 0 ≤ℤ budget.max_bytes) × IsAtLeast (pos 0) budget.max_duration_ms
      → All IsMeasured (map (λ s. s.cargo_item) l)
      → Outcome fl budget
          (Option.map (clamp01 fl) budget.durable_cargo_ratio_cap)
          0
          0
          0
          (cargo_items ranked)
          selection
  plan-Outcome valid measured =
      select_from-Outcome fl budget _ valid nothing_selected 0 0 0 0 ranked
        (record { counted = refl; bytes = ap pos (omega arith); duration = ap pos (omega arith) })
        (record {
          items = omega arith;
          bytes = omega arith;
          duration = IsWithin-zero budget.max_duration_ms;
        })
        (subst (All IsMeasured) (sym (cargo-rank_from none l)) measured)

module _ {F : Type 0} (fl : FloatOps F) (self : EncounterSchedulerV1) (budget : BudgetProfile F)
    (now : ℕ) where
  pub plan_eligible-Selects :
      (items : List (CargoItem F)) → Selects (plan_eligible fl self budget now items)
  unfolding plan_eligible
  plan_eligible-Selects [] = record { is_prefix = refl; marked = refl }
  plan_eligible-Selects (item ∷ items) =
      plan-Selects fl budget (ranking fl self budget now (item ∷ items))

  -- The selected items of a plan are the first of its ranking, in its order, and they are the items
  -- that the ranking marks as selected.
  pub schedule-Selects :
      (items : List (CargoItem F)) (r : EncounterSchedulerResult F)
      → schedule fl self budget now items ≡ ok r
      → Selects r
  schedule-Selects items r h =
      subst Selects (sym (schedule-eq fl self budget now items h))
        (plan_eligible-Selects (eligible_items self now items))
