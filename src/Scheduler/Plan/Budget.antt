-- ===== src/Scheduler/Plan/Budget.antt =====
-- The selection of `schedule` against the budget.
use aethos_linux.Base.{
  ℕ, ◌+◌, ◌≡◌, refl, sym, ap, ◌∙◌, subst, inl, inr, ◌⊎◌, List, [], ◌∷◌, Option, none, some, arith,
  map, length, All, filter, Bool-cases,
}
use mathlib.Core.Option
use aethos_linux.Base.Int.{ℤ, pos, ◌≤ℤ◌}
use aethos_linux.Base.Result.{ok}
use aethos_linux.Base.Sort.Laws.{All-sort_by}
use aethos_linux.Scheduler.Float.{FloatOps}
use aethos_linux.Scheduler.Types.{
  BudgetProfile, CargoItem, EncounterSchedulerV1, EncounterSchedulerResult, ScoredItem,
  no_eligible_items,
}
use aethos_linux.Scheduler.Validate.Accepts.{IsValidItem, IsAtLeast, is_eligible}
use aethos_linux.Scheduler.Score.{score, clamp01, unwrap_or}
use aethos_linux.Scheduler.Rank.{ranks_before}
use aethos_linux.Scheduler.Select.Budget.{
  bytes_of, durations_of, IsMeasured, cargo_items, Fits, Explains, Fits-eq, Outcome,
}
use aethos_linux.Scheduler.Plan.{ranking, plan, plan_eligible, schedule}
use aethos_linux.Scheduler.Plan.Ranking.{eligible_items, scored, schedule-eq, schedule-valid}
use aethos_linux.Scheduler.Plan.Selection.{
  plan-Outcome, cargo-plan-ranked, length-plan-selected, cargo-plan-selected, plan-stop, ranked,
  selection, IsWithin-zero,
}

zero_add : (n : ℕ) → 0 + n ≡ n
zero_add n = omega arith

known-duration : (o : Option ℤ) → IsAtLeast (pos 0) o → pos 0 ≤ℤ unwrap_or o (pos 0)
known-duration none h = omega arith
known-duration (some d) h = h

module _ {F : Type 0} where
  item-IsMeasured : (item : CargoItem F) → IsValidItem item → IsMeasured item
  item-IsMeasured item v = (
    omega (arith, v.size_bytes),
    known-duration item.estimated_duration_ms v.estimated_duration_ms,
  )

  eligible-IsMeasured :
      (threshold : ℕ) (items : List (CargoItem F))
      → All IsValidItem items
      → All IsMeasured (filter (is_eligible threshold) items)
  eligible-IsMeasured threshold [] v = tt
  eligible-IsMeasured threshold (item ∷ items) v = elim (Bool-cases (is_eligible threshold item)) [
    | inl e ↦ rw e (item-IsMeasured item v.0, eligible-IsMeasured threshold items v.1)
    | inr e ↦ rw e (eligible-IsMeasured threshold items v.1)
  ]

  All-cargo :
      (P : CargoItem F → Type 0) (l : List (ScoredItem F))
      → All (λ s. P s.cargo_item) l
      → All P (map (λ s. s.cargo_item) l)
  All-cargo P [] h = tt
  All-cargo P (s ∷ l) h = (h.0, All-cargo P l h.1)

module _ {F : Type 0} (fl : FloatOps F) (budget : BudgetProfile F) where
  abbrev pub cap : Option F
  cap = Option.map (clamp01 fl) budget.durable_cargo_ratio_cap

  -- What a plan promises of its selection and of its stop reason.
  pub record Obeys (r : EncounterSchedulerResult F) : Type 0 where
    pub fits :
        Fits fl budget cap
          (length r.selected_prefix)
          (bytes_of (cargo_items r.selected_prefix))
          (durations_of (cargo_items r.selected_prefix))
    pub explained :
        ((r.stop_reason ≡ no_eligible_items) × (r.ranked_items ≡ []))
        ⊎ Explains fl budget cap r.stop_reason 0 0 0
            (length r.selected_prefix)
            (cargo_items r.ranked_items)

  plan-Obeys :
      (l : List (ScoredItem F))
      → Outcome fl budget cap 0 0 0 (cargo_items (ranked fl budget l)) (selection fl budget l)
      → Obeys (plan fl budget l)
  plan-Obeys l o =
      let n = length-plan-selected fl budget l in
      let cargo = cargo-plan-selected fl budget l in
      record {
        fits =
            Fits-eq fl budget cap (omega arith) (zero_add _ ∙ ap bytes_of (sym cargo))
              (zero_add _ ∙ ap durations_of (sym cargo)) o.fits;
        explained = inr (rw (plan-stop fl budget l, n, cargo-plan-ranked fl budget l) o.explained);
      }

module _ {F : Type 0} (fl : FloatOps F) (self : EncounterSchedulerV1) (budget : BudgetProfile F)
    (now : ℕ) where
  scored-IsMeasured :
      (items : List (CargoItem F))
      → All IsMeasured items
      → All (λ s. IsMeasured s.cargo_item) (map (scored fl self budget now) items)
  unfolding score
  scored-IsMeasured [] h = tt
  scored-IsMeasured (item ∷ items) h = (h.0, scored-IsMeasured items h.1)

  ranking-IsMeasured :
      (items : List (CargoItem F))
      → All IsMeasured items
      → All IsMeasured (map (λ s. s.cargo_item) (ranking fl self budget now items))
  unfolding ranking
  ranking-IsMeasured items h = All-cargo IsMeasured (ranking fl self budget now items) (
      All-sort_by ranks_before _ (map (scored fl self budget now) items)
        (scored-IsMeasured items h))

  plan_eligible-Obeys :
      (pos 0 ≤ℤ budget.max_bytes) × IsAtLeast (pos 0) budget.max_duration_ms
      → (items : List (CargoItem F)) → All IsMeasured items
      → Obeys fl budget (plan_eligible fl self budget now items)
  unfolding plan_eligible
  plan_eligible-Obeys valid [] h = record {
    fits = record {
      items = omega arith;
      bytes = omega arith;
      duration = IsWithin-zero budget.max_duration_ms;
    };
    explained = inl (refl, refl);
  }
  plan_eligible-Obeys valid (item ∷ items) h =
      plan-Obeys fl budget (ranking fl self budget now (item ∷ items))
        (plan-Outcome fl budget _ valid (ranking-IsMeasured (item ∷ items) h))

  -- A plan's selection obeys the budget: it has at most `max_items` items, their sizes add up to at
  -- most `max_bytes` and their durations to at most `max_duration_ms`, where there is such a limit,
  -- the two sums cut at the greatest i32. Its stop reason is the reason: there was no eligible
  -- item; all were selected; `max_items` were; the next item's size or duration would have passed
  -- the limit; or, for the durable ratio, an item was left.
  pub schedule-Obeys :
      (items : List (CargoItem F)) (r : EncounterSchedulerResult F)
      → schedule fl self budget now items ≡ ok r
      → Obeys fl budget r
  schedule-Obeys items r h =
      let v = schedule-valid fl self budget now items h in
      let b = v.valid_budget in
      subst (Obeys fl budget) (sym (schedule-eq fl self budget now items h)) (
        plan_eligible-Obeys (b.max_bytes, b.max_duration_ms) (eligible_items self now items)
          (eligible-IsMeasured _ items v.valid_items))
