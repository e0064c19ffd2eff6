-- ===== src/Scheduler/Plan/Ranking.antt =====
-- When `schedule` succeeds, and its ranking.
use mathlib.Core.List.{Perm}
use mathlib.Core.List.Perm
use aethos_linux.Base.{
  ℕ, suc, ◌≡◌, refl, sym, ap, ◌∙◌, subst, ◌↔◌, List, [], ◌∷◌, Option, none, some, arith, map, All,
  filter, saturating_add,
}
use aethos_linux.Base.Result.{ok, >>=-eq-ok}
use aethos_linux.Base.Sort.{sort_by}
use aethos_linux.Base.Sort.Laws.{IsSorted, sort_by-IsSorted, sort_by-perm, All-sort_by}
use aethos_linux.Scheduler.Float.{FloatOps}
use aethos_linux.Scheduler.Types.{
  BudgetProfile, CargoItem, EncounterSchedulerV1, EncounterSchedulerResult, RankedCargoItem,
  ScoredItem,
}
use aethos_linux.Scheduler.Validate.{validate_budget, validate_and_filter_eligible, eligible_from}
use aethos_linux.Scheduler.Validate.Accepts.{
  IsValidBudget, IsValidItem, Fresh, is_eligible, validate_budget-ok, eligible_from-accepts,
  eligible_from-valid,
}
use aethos_linux.Scheduler.Score.{score}
use aethos_linux.Scheduler.Rank.{ranks_before, rank_from}
use aethos_linux.Scheduler.Rank.Order.{ranks_before-IsStrictWeak}
use aethos_linux.Scheduler.Select.{mark_selected}
use aethos_linux.Scheduler.Select.Budget.{cargo_items}
use aethos_linux.Scheduler.Plan.{ranking, plan_eligible, schedule}

-- The items that have not expired, with the tolerance for the clock.
abbrev pub eligible_items :
    {F : Type 0} → EncounterSchedulerV1 → ℕ → List (CargoItem F) → List (CargoItem F)
eligible_items self now items =
    filter (is_eligible (saturating_add now self.clock_skew_tolerance_ms)) items

-- Valid input: a budget, and items of which no two have one identifier.
pub record IsValidInput {F : Type 0} (budget : BudgetProfile F) (items : List (CargoItem F))
    : Type 0 where
  pub valid_budget : IsValidBudget budget
  pub valid_items : All IsValidItem items
  pub distinct : Fresh [] items

module _ {F : Type 0} where
  pub cargo-rank_from :
      (previous : Option (ScoredItem F)) (l : List (ScoredItem F))
      → cargo_items (rank_from previous l) ≡ map (λ s. s.cargo_item) l
  unfolding rank_from
  cargo-rank_from previous [] = refl
  cargo-rank_from previous (s ∷ l) = ap (◌∷◌ s.cargo_item) (cargo-rank_from (some s) l)

  cargo-mark_selected :
      (indices : List ℕ) (index : ℕ) (l : List (RankedCargoItem F))
      → cargo_items (mark_selected indices index l) ≡ cargo_items l
  unfolding mark_selected
  cargo-mark_selected indices index [] = refl
  cargo-mark_selected indices index (r ∷ l) =
      ground (arith, cargo-mark_selected indices (suc index) l)

module _ {F : Type 0} (fl : FloatOps F) (self : EncounterSchedulerV1) (budget : BudgetProfile F)
    (now : ℕ) where
  abbrev pub scored : CargoItem F → ScoredItem F
  scored item = score fl self item budget now

  cargo-scored : (items : List (CargoItem F)) → map (λ s. s.cargo_item) (map scored items) ≡ items
  unfolding score
  cargo-scored [] = refl
  cargo-scored (item ∷ items) = ap (◌∷◌ item) (cargo-scored items)

  pub scored_again :
      (items : List (CargoItem F)) → All (λ s. scored s.cargo_item ≡ s) (map scored items)
  unfolding score
  scored_again [] = tt
  scored_again (item ∷ items) = (refl, scored_again items)

  scored-cargo :
      (l : List (ScoredItem F))
      → All (λ s. scored s.cargo_item ≡ s) l
      → map scored (map (λ s. s.cargo_item) l) ≡ l
  scored-cargo [] h = refl
  scored-cargo (s ∷ l) h = cc (h.0, scored-cargo l h.1)

  cargo-plan_eligible :
      (items : List (CargoItem F))
      → cargo_items (plan_eligible fl self budget now items).ranked_items
        ≡ map (λ s. s.cargo_item) (ranking fl self budget now items)
  unfolding plan_eligible sort_by
  cargo-plan_eligible [] = refl
  cargo-plan_eligible (item ∷ items) =
      cargo-mark_selected _ 0 _ ∙ cargo-rank_from none (ranking fl self budget now (item ∷ items))

  pub ranking-perm :
      (items : List (CargoItem F))
      → Perm (map (λ s. s.cargo_item) (ranking fl self budget now items)) items
  unfolding ranking
  ranking-perm items =
      subst (Perm _) (cargo-scored items)
        (Perm.map _ (sort_by-perm ranks_before (map scored items)))

  pub ranking-rescored :
      (items : List (CargoItem F))
      → map scored (map (λ s. s.cargo_item) (ranking fl self budget now items))
        ≡ ranking fl self budget now items
  unfolding ranking
  ranking-rescored items =
      scored-cargo _ (All-sort_by ranks_before _ (map scored items) (scored_again items))

  -- `schedule` succeeds on valid input.
  pub schedule-accepts :
      (items : List (CargoItem F))
      → IsValidInput budget items
      → schedule fl self budget now items
        ≡ ok (plan_eligible fl self budget now (eligible_items self now items))
  unfolding schedule validate_and_filter_eligible
  schedule-accepts items v =
      rw ((validate_budget-ok budget).1 v.valid_budget, schedule)
        (rw (eligible_from-accepts _ [] items v.valid_items v.distinct))

  pub schedule-valid :
      (items : List (CargoItem F)) {r : EncounterSchedulerResult F}
      → schedule fl self budget now items ≡ ok r
      → IsValidInput budget items
  unfolding schedule validate_and_filter_eligible
  schedule-valid items h =
      let (_, b, h') = >>=-eq-ok (validate_budget budget) _ h in
      let (_, e, _) = >>=-eq-ok (eligible_from _ [] items) _ h' in
      let (vs, fs) = eligible_from-valid _ [] items e in
      record { valid_budget = (validate_budget-ok budget).0 b; valid_items = vs; distinct = fs }

  pub schedule-eq :
      (items : List (CargoItem F)) {r : EncounterSchedulerResult F}
      → schedule fl self budget now items ≡ ok r
      → r ≡ plan_eligible fl self budget now (eligible_items self now items)
  schedule-eq items h = cc (schedule-accepts items (schedule-valid items h))

  -- `schedule` returns a plan exactly when the budget is valid, each item is valid and no two items
  -- have one identifier.
  pub schedule-ok_iff :
      (items : List (CargoItem F))
      → ((r : EncounterSchedulerResult F) × (schedule fl self budget now items ≡ ok r))
        ↔ IsValidInput budget items
  schedule-ok_iff items = (λ h. schedule-valid items h.1, λ v. (_, schedule-accepts items v))

  pub ranking-IsSorted :
      (items : List (CargoItem F)) → IsSorted ranks_before (ranking fl self budget now items)
  unfolding ranking
  ranking-IsSorted items = sort_by-IsSorted ranks_before-IsStrictWeak (map scored items)

  cargo-schedule :
      (items : List (CargoItem F)) {r : EncounterSchedulerResult F}
      → schedule fl self budget now items ≡ ok r
      → cargo_items r.ranked_items
        ≡ map (λ s. s.cargo_item) (ranking fl self budget now (eligible_items self now items))
  cargo-schedule items h =
      ap (λ q. cargo_items q.ranked_items) (schedule-eq items h)
      ∙ cargo-plan_eligible (eligible_items self now items)

  -- The plan's ranking holds each item that has not expired once and no other, in rank order by
  -- the scores of `score`.
  pub schedule_ranks :
      (items : List (CargoItem F)) (r : EncounterSchedulerResult F)
      → schedule fl self budget now items ≡ ok r
      → Perm (cargo_items r.ranked_items) (eligible_items self now items)
        × IsSorted ranks_before (map scored (cargo_items r.ranked_items))
  schedule_ranks items r h =
      let e = cargo-schedule items h in
      (
        subst (λ l. Perm l (eligible_items self now items)) (sym e) (ranking-perm _),
        subst (λ l. IsSorted ranks_before (map scored l)) (sym e)
            (subst (IsSorted ranks_before) (sym (ranking-rescored _)) (ranking-IsSorted _)),
      )
