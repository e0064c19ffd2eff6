-- ===== src/Scheduler/Select/Budget.antt =====
-- The loop against the limits of the budget.
use aethos_linux.Base.{
  ℕ, suc, ◌+◌, ◌≤◌, ◌<◌, ◌≡◌, ◌≢◌, subst, refl, true, false, inl, inr, List, [], ◌∷◌, Option, none,
  some, arith, length, take, get_elem?, Option-cases, i32_max, All, min,
}
use aethos_linux.Base.Int.{ℤ, pos, pos_part, ltb_ℤ, ◌≤ℤ◌, saturating_add_i32}
use aethos_linux.Scheduler.Float.{FloatOps}
use aethos_linux.Scheduler.Types.{
  BudgetProfile, CargoItem, RankedCargoItem, EncounterSelectionStopReason, completed,
  budget_items_exhausted, budget_bytes_exhausted, encounter_time_exhausted,
  durable_ratio_cap_reached, no_eligible_items,
}
use aethos_linux.Scheduler.Validate.Accepts.{IsAtLeast}
use aethos_linux.Scheduler.Select.{Selection, refusal, select_one, select_from, over_duration}
use aethos_linux.Scheduler.Select.Prefix.{select_from-stop, select_from-go}
unfoldable pub use aethos_linux.Scheduler.Select.Measure.{
  cargo_items, bytes_of, duration_of, durations_of, IsMeasured, IsWithin, Exceeds,
}
pub use aethos_linux.Scheduler.Select.Measure.{Tracks}
use aethos_linux.Scheduler.Select.Measure.{
  add-pos, ltb-pos, not-ltb-pos, select_one-Tracks, over_duration-Exceeds, over_duration-IsWithin,
}

module _ {F : Type 0} (fl : FloatOps F) (budget : BudgetProfile F) (cap : Option F) where
  refusal-items :
      (sel : Selection) (c : CargoItem F)
      → refusal fl budget cap sel c ≡ some budget_items_exhausted
      → pos_part budget.max_items ≤ sel.selected
  unfolding refusal
  refusal-items sel c e = ground arith

  refusal-bytes :
      (sel : Selection) (c : CargoItem F)
      → refusal fl budget cap sel c ≡ some budget_bytes_exhausted
      → ltb_ℤ budget.max_bytes (saturating_add_i32 sel.total_bytes c.size_bytes) ≡ true
  unfolding refusal
  refusal-bytes sel c e = ground arith

  refusal-time :
      (sel : Selection) (c : CargoItem F)
      → refusal fl budget cap sel c ≡ some encounter_time_exhausted
      → over_duration budget.max_duration_ms sel c ≡ true
  unfolding refusal
  refusal-time sel c e = ground arith

  refusal-none :
      (sel : Selection) (c : CargoItem F)
      → refusal fl budget cap sel c ≡ none
      → (sel.selected < pos_part budget.max_items)
        × (ltb_ℤ budget.max_bytes (saturating_add_i32 sel.total_bytes c.size_bytes) ≡ false)
        × (over_duration budget.max_duration_ms sel c ≡ false)
  unfolding refusal
  refusal-none sel c e = (ground arith, ground arith, ground arith)

  refusal-real :
      (sel : Selection) (c : CargoItem F)
      → (refusal fl budget cap sel c ≢ some completed)
        × (refusal fl budget cap sel c ≢ some no_eligible_items)
  unfolding refusal
  refusal-real sel c = ground arith

  -- Why the loop stopped behind `k` of the items, where `n` items of `t` bytes and `d` milliseconds
  -- were selected before them.
  abbrev pub Explains : EncounterSelectionStopReason → ℕ → ℕ → ℕ → ℕ → List (CargoItem F) → Type 0
  Explains completed n t d k items = k ≡ length items
  Explains budget_items_exhausted n t d k items =
      (n + k ≡ pos_part budget.max_items) × (k < length items)
  Explains budget_bytes_exhausted n t d k items =
      (next : CargoItem F) × (get_elem? items k ≡ some next)
      × (pos_part budget.max_bytes < t + bytes_of (take k items) + pos_part next.size_bytes)
  Explains encounter_time_exhausted n t d k items =
      (next : CargoItem F) × (get_elem? items k ≡ some next)
      × Exceeds budget.max_duration_ms (d + durations_of (take k items) + duration_of next)
  Explains durable_ratio_cap_reached n t d k items = k < length items
  Explains no_eligible_items n t d k items = ⊥

  Explains-cons :
      (reason : EncounterSelectionStopReason) (n t d k : ℕ) (c : CargoItem F)
      (items : List (CargoItem F))
      → Explains reason (n + 1) (t + pos_part c.size_bytes) (d + duration_of c) k items
      → Explains reason n t d (suc k) (c ∷ items)
  Explains-cons completed n t d k c items h = omega arith
  Explains-cons budget_items_exhausted n t d k c items h = omega arith
  Explains-cons budget_bytes_exhausted n t d k c items (next, e, h) = (next, e, omega arith)
  Explains-cons encounter_time_exhausted n t d k c items (next, e, h) =
      (next, e, regroup budget.max_duration_ms h)
    where
      regroup :
          (limit : Option ℤ)
          → Exceeds limit (d + duration_of c + durations_of (take k items) + duration_of next)
          → Exceeds limit (d + (duration_of c + durations_of (take k items)) + duration_of next)
      regroup none x = x
      regroup (some limit) x = omega arith
  Explains-cons durable_ratio_cap_reached n t d k c items h = omega arith
  Explains-cons no_eligible_items n t d k c items h = h

  -- The selected items fit the limits.
  pub record Fits (n t d : ℕ) : Type 0 where
    pub items : n ≤ pos_part budget.max_items
    pub bytes : min t i32_max ≤ pos_part budget.max_bytes
    pub duration : IsWithin budget.max_duration_ms d

  Explains-stop :
      (reason : EncounterSelectionStopReason) (sel : Selection) (n t d : ℕ) (c : CargoItem F)
      (items : List (CargoItem F))
      → refusal fl budget cap sel c ≡ some reason
      → Tracks sel n t d
      → IsMeasured c
      → Fits n t d
      → (pos 0 ≤ℤ budget.max_bytes) × IsAtLeast (pos 0) budget.max_duration_ms
      → Explains reason n t d 0 (c ∷ items)
  Explains-stop completed sel n t d c items e v h f p = absurd ((refusal-real sel c).0 e)
  Explains-stop budget_items_exhausted sel n t d c items e v h f p =
      (omega (arith, refusal-items sel c e, v.counted, f.items), omega arith)
  Explains-stop budget_bytes_exhausted sel n t d c items e v h f p = (
    c,
    refl,
    let past = ltb-pos budget.max_bytes _ p.0 (
          subst (λ z. ltb_ℤ budget.max_bytes z ≡ true)
            (add-pos sel.total_bytes _ (min t i32_max) v.bytes h.0) (refusal-bytes sel c e)) in
        omega arith,
  )
  Explains-stop encounter_time_exhausted sel n t d c items e v h f p = (
    c,
    refl,
    subst (Exceeds budget.max_duration_ms) (omega arith) (
        over_duration-Exceeds sel c d v.duration h.1 budget.max_duration_ms p.1
          (refusal-time sel c e)),
  )
  Explains-stop durable_ratio_cap_reached sel n t d c items e v h f p = omega arith
  Explains-stop no_eligible_items sel n t d c items e v h f p = absurd ((refusal-real sel c).1 e)

  Fits-go :
      (sel : Selection) (n t d : ℕ) (c : CargoItem F)
      → refusal fl budget cap sel c ≡ none
      → Tracks sel n t d
      → IsMeasured c
      → Fits (n + 1) (t + pos_part c.size_bytes) (d + duration_of c)
  Fits-go sel n t d c e v h =
      let (room, bytes, time) = refusal-none sel c e in
      let fits = not-ltb-pos budget.max_bytes _ (
        subst (λ z. ltb_ℤ budget.max_bytes z ≡ false)
          (add-pos sel.total_bytes _ (min t i32_max) v.bytes h.0) bytes) in
      record {
        items = omega (arith, v.counted);
        bytes = omega arith;
        duration = over_duration-IsWithin sel c d v.duration h.1 budget.max_duration_ms time;
      }

  pub Fits-eq : {n m t u d e : ℕ} → n ≡ m → t ≡ u → d ≡ e → Fits n t d → Fits m u e
  Fits-eq p q r f = record {
    items = omega arith;
    bytes = omega arith;
    duration = subst (IsWithin budget.max_duration_ms) r f.duration;
  }

  -- What the loop returns on `items`.
  pub record Outcome (n t d : ℕ) (items : List (CargoItem F))
      (o : List ℕ × EncounterSelectionStopReason) : Type 0 where
    pub fits :
        Fits
          (n + length o.0)
          (t + bytes_of (take (length o.0) items))
          (d + durations_of (take (length o.0) items))
    pub explained : Explains o.1 n t d (length o.0) items

  module _ (valid : (pos 0 ≤ℤ budget.max_bytes) × IsAtLeast (pos 0) budget.max_duration_ms) where
    pub select_from-Outcome :
        (sel : Selection) (index n t d : ℕ) (items : List (RankedCargoItem F))
        → Tracks sel n t d
        → Fits n t d
        → All IsMeasured (cargo_items items)
        → Outcome n t d (cargo_items items) (select_from fl budget cap sel index items)
    unfolding select_from
    select_from-Outcome sel index n t d [] v f h = record {
      fits = Fits-eq (omega arith) (omega arith) (omega arith) f;
      explained = refl;
    }
    select_from-Outcome sel index n t d (r ∷ rest) v f h =
        elim (Option-cases (refusal fl budget cap sel r.cargo_item)) [
          | inl e ↦
              let c = r.cargo_item in
              let later =
                select_from-Outcome (select_one sel c) (suc index) (n + 1)
                  (t + pos_part c.size_bytes) (d + duration_of c) rest
                  (select_one-Tracks sel n t d c v h.0) (Fits-go sel n t d c e v h.0) h.1 in
              rw (select_from-go fl budget cap sel index r rest e) (record {
                fits = Fits-eq (omega arith) (omega arith) (omega arith) later.fits;
                explained = Explains-cons _ n t d _ c (cargo_items rest) later.explained;
              })
          | inr (reason, e) ↦ rw (select_from-stop fl budget cap sel index r rest e) (record {
            fits = Fits-eq (omega arith) (omega arith) (omega arith) f;
            explained =
                Explains-stop reason sel n t d r.cargo_item (cargo_items rest) e v h.0 f valid;
          })
        ]
