-- ===== src/Scheduler/Select/Prefix.antt =====
-- The loop selects a prefix: its indices count up from zero, and marking and picking by them is
-- taking that many items.
use aethos_linux.Base.{
  ℕ, zero, suc, ◌+◌, ◌-◌, ◌≤◌, ◌≡◌, refl, ap, ◌∙◌, inl, inr, List, [], ◌∷◌, Option, none, some,
  arith, leb, ltb, ◌&&◌, length, take, drop, get_elem?, Option-cases,
}
use aethos_linux.Scheduler.Float.{FloatOps}
use aethos_linux.Scheduler.Types.{
  BudgetProfile, RankedCargoItem, EncounterSelectionStopReason, selected_prefix,
}
use aethos_linux.Scheduler.Select.{
  Selection, refusal, select_one, select_from, contains_index, mark_selected, pick,
}

abbrev pub range_from : ℕ → ℕ → List ℕ
range_from start zero = []
range_from start (suc n) = start ∷ range_from (suc start) n

module _ {F : Type 0} (fl : FloatOps F) (budget : BudgetProfile F) (cap : Option F) where
  pub select_from-stop :
      (sel : Selection) (index : ℕ) (r : RankedCargoItem F) (rest : List (RankedCargoItem F))
      {reason : EncounterSelectionStopReason}
      → refusal fl budget cap sel r.cargo_item ≡ some reason
      → select_from fl budget cap sel index (r ∷ rest) ≡ ([], reason)
  unfolding select_from
  select_from-stop sel index r rest e = rw (e, select_from)

  pub select_from-go :
      (sel : Selection) (index : ℕ) (r : RankedCargoItem F) (rest : List (RankedCargoItem F))
      → refusal fl budget cap sel r.cargo_item ≡ none
      → select_from fl budget cap sel index (r ∷ rest) ≡ (
        index ∷ (select_from fl budget cap (select_one sel r.cargo_item) (suc index) rest).0,
        (select_from fl budget cap (select_one sel r.cargo_item) (suc index) rest).1,
      )
  unfolding select_from
  select_from-go sel index r rest e = rw (e, select_from)

  pub select_from-range :
      (sel : Selection) (index : ℕ) (items : List (RankedCargoItem F))
      → (select_from fl budget cap sel index items).0
        ≡ range_from index (length (select_from fl budget cap sel index items).0)
  unfolding select_from
  select_from-range sel index [] = refl
  select_from-range sel index (r ∷ rest) =
      elim (Option-cases (refusal fl budget cap sel r.cargo_item)) [
        | inl e ↦
            rw (select_from-go sel index r rest e)
              (ap (◌∷◌ index) (select_from-range (select_one sel r.cargo_item) (suc index) rest))
        | inr (reason, e) ↦ rw (select_from-stop sel index r rest e)
      ]

  pub length-select_from-le :
      (sel : Selection) (index : ℕ) (items : List (RankedCargoItem F))
      → length (select_from fl budget cap sel index items).0 ≤ length items
  unfolding select_from
  length-select_from-le sel index [] = omega arith
  length-select_from-le sel index (r ∷ rest) =
      elim (Option-cases (refusal fl budget cap sel r.cargo_item)) [
        | inl e ↦
            rw (select_from-go sel index r rest e)
              (omega (arith, length-select_from-le (select_one sel r.cargo_item) (suc index) rest))
        | inr (reason, e) ↦ rw (select_from-stop sel index r rest e) (omega arith)
      ]

contains_index-range :
    (start n index : ℕ)
    → contains_index (range_from start n) index ≡ (leb start index && ltb index (start + n))
unfolding contains_index
contains_index-range start zero index = ground arith
contains_index-range start (suc n) index = ground (arith, contains_index-range (suc start) n index)

module _ {F : Type 0} where
  -- The first items with the mark of a selected one.
  abbrev pub mark_first : ℕ → List (RankedCargoItem F) → List (RankedCargoItem F)
  mark_first zero items = items
  mark_first (suc n) [] = []
  mark_first (suc n) (r ∷ rest) =
      record r { selection_reason = some selected_prefix } ∷ mark_first n rest

  mark_selected-range :
      (start n index left : ℕ) (items : List (RankedCargoItem F))
      → start ≤ index
      → start + n - index ≡ left
      → mark_selected (range_from start n) index items ≡ mark_first left items
  unfolding mark_selected
  mark_selected-range start n index zero [] h e = refl
  mark_selected-range start n index (suc left) [] h e = refl
  mark_selected-range start n index zero (r ∷ rest) h e =
      ground (
        arith,
        contains_index-range start n index,
        mark_selected-range start n (suc index) zero rest,
      )
  mark_selected-range start n index (suc left) (r ∷ rest) h e =
      ground (
        arith,
        contains_index-range start n index,
        mark_selected-range start n (suc index) left rest,
      )

  -- Marking by the indices below `n` marks the first `n` items.
  pub mark_selected-first :
      (n : ℕ) (items : List (RankedCargoItem F))
      → mark_selected (range_from 0 n) 0 items ≡ mark_first n items
  mark_selected-first n items = mark_selected-range 0 n 0 n items (omega arith) (omega arith)

  drop-some :
      (start : ℕ) (items : List (RankedCargoItem F)) {item : RankedCargoItem F}
      → get_elem? items start ≡ some item
      → drop start items ≡ item ∷ drop (suc start) items
  drop-some start [] e = cc
  drop-some zero (x ∷ items) e = cc
  drop-some (suc start) (x ∷ items) e = drop-some start items e

  drop-none :
      (start : ℕ) (items : List (RankedCargoItem F))
      → get_elem? items start ≡ none
      → (drop start items ≡ []) × (drop (suc start) items ≡ [])
  drop-none zero [] e = (refl, refl)
  drop-none (suc start) [] e = (refl, refl)
  drop-none zero (x ∷ items) e = cc
  drop-none (suc start) (x ∷ items) e = drop-none start items e

  abbrev nothing : List (RankedCargoItem F)
  nothing = []

  take-nil : (n : ℕ) → take n nothing ≡ []
  take-nil zero = refl
  take-nil (suc n) = refl

  -- Picking by consecutive indices is a slice.
  pub pick-range :
      (start n : ℕ) (items : List (RankedCargoItem F))
      → pick (range_from start n) items ≡ take n (drop start items)
  unfolding pick
  pick-range start zero items = refl
  pick-range start (suc n) items = elim (Option-cases (get_elem? items start)) [
    | inl e ↦
        let (here, later) = drop-none start items e in
        rw (e, pick) (rw (here) (pick-range (suc start) n items ∙ rw later (take-nil n)))
    | inr (item, e) ↦
        rw (e, pick) (rw (drop-some start items e) (ap (◌∷◌ item) (pick-range (suc start) n items)))
  ]
