-- ===== src/Scheduler/Validate/Accepts.antt =====
-- What validation accepts, and what it leaves: the items whose expiry lies past the threshold.
use aethos_linux.Base.{
  ℕ, ◌≡◌, refl, ◌↔◌, Bool, true, false, List, [], ◌∷◌, Option, none, some, arith, ltb, All, filter,
}
use aethos_linux.Base.Int.{ℤ, pos, ◌≤ℤ◌}
use aethos_linux.Base.Text.{Text, contains}
use aethos_linux.Base.Result.{ok, >>=-eq-ok}
use aethos_linux.Scheduler.Types.{
  BudgetProfile, CargoItem, SchedulerError, invalid_budget_max_duration_ms,
  invalid_known_replica_count, invalid_target_replica_count, invalid_estimated_duration_ms,
}
use aethos_linux.Scheduler.Validate.{
  is_valid_item_id, refuse_below, validate_budget, validate_item, eligible_from,
}

-- An absent value meets every bound.
abbrev pub IsAtLeast : ℤ → Option ℤ → Type 0
IsAtLeast least none = Unit
IsAtLeast least (some value) = least ≤ℤ value

module _ {F : Type 0} where
  pub record IsValidBudget (budget : BudgetProfile F) : Type 0 where
    pub max_items : pos 0 ≤ℤ budget.max_items
    pub max_bytes : pos 0 ≤ℤ budget.max_bytes
    pub max_duration_ms : IsAtLeast (pos 0) budget.max_duration_ms
    pub preferred_transfer_unit_bytes : pos 1 ≤ℤ budget.preferred_transfer_unit_bytes
    pub target_replica_count_default : pos 1 ≤ℤ budget.target_replica_count_default

  pub record IsValidItem (item : CargoItem F) : Type 0 where
    pub item_id : is_valid_item_id item.item_id ≡ true
    pub tier : (pos 0 ≤ℤ item.tier) × (item.tier ≤ℤ pos 5)
    pub size_bytes : pos 1 ≤ℤ item.size_bytes
    pub destination_rank : pos 0 ≤ℤ item.destination_rank
    pub known_replica_count : IsAtLeast (pos 0) item.known_replica_count
    pub target_replica_count : IsAtLeast (pos 1) item.target_replica_count
    pub estimated_duration_ms : IsAtLeast (pos 0) item.estimated_duration_ms

  -- No item has the identifier of an earlier one, or one of `seen`.
  abbrev pub Fresh : List Text → List (CargoItem F) → Type 0
  Fresh seen [] = Unit
  Fresh seen (item ∷ items) =
      (contains seen item.item_id ≡ false) × Fresh (item.item_id ∷ seen) items

refuse_below-ok :
    (o : Option ℤ) (least : ℤ) (error : ℤ → SchedulerError)
    → (refuse_below o least error ≡ ok tt) ↔ IsAtLeast least o
unfolding refuse_below
refuse_below-ok none least error = (λ _. tt, λ _. refl)
refuse_below-ok (some value) least error = ground arith

module _ {F : Type 0} where
  pub validate_budget-ok :
      (budget : BudgetProfile F) → (validate_budget budget ≡ ok tt) ↔ IsValidBudget budget
  unfolding validate_budget
  validate_budget-ok budget =
      ground (arith, refuse_below-ok budget.max_duration_ms (pos 0) invalid_budget_max_duration_ms)

  validate_item-ok :
      (seen : List Text) (item : CargoItem F)
      → (validate_item seen item ≡ ok tt)
        ↔ (IsValidItem item × (contains seen item.item_id ≡ false))
  unfolding validate_item
  validate_item-ok seen item = ground (
    arith,
    refuse_below-ok item.known_replica_count (pos 0) (invalid_known_replica_count item.item_id),
    refuse_below-ok item.target_replica_count (pos 1) (invalid_target_replica_count item.item_id),
    refuse_below-ok item.estimated_duration_ms (pos 0) (invalid_estimated_duration_ms item.item_id),
  )

  abbrev pub is_eligible : ℕ → CargoItem F → Bool
  is_eligible expiry_threshold item = ltb expiry_threshold item.expiry_at_unix_ms

  -- The loop succeeds on valid items with identifiers that are new, and keeps the eligible ones.
  pub eligible_from-accepts :
      (threshold : ℕ) (seen : List Text) (items : List (CargoItem F))
      → All IsValidItem items
      → Fresh seen items
      → eligible_from threshold seen items ≡ ok (filter (is_eligible threshold) items)
  unfolding eligible_from
  eligible_from-accepts threshold seen [] v f = refl
  eligible_from-accepts threshold seen (item ∷ items) v f =
      rw ((validate_item-ok seen item).1 (v.0, f.0), eligible_from)
        (rw (eligible_from-accepts threshold (item.item_id ∷ seen) items v.1 f.1))

  -- It succeeds on no others.
  pub eligible_from-valid :
      (threshold : ℕ) (seen : List Text) (items : List (CargoItem F))
      {eligible : List (CargoItem F)}
      → eligible_from threshold seen items ≡ ok eligible
      → All IsValidItem items × Fresh seen items
  unfolding eligible_from
  eligible_from-valid threshold seen [] h = (tt, tt)
  eligible_from-valid threshold seen (item ∷ items) h =
      let (_, checked, h') = >>=-eq-ok (validate_item seen item) _ h in
      let (eligible', e, _) =
        >>=-eq-ok (eligible_from threshold (item.item_id ∷ seen) items) _ h' in
      let (valid, new) = (validate_item-ok seen item).0 checked in
      let (vs, fs) = eligible_from-valid threshold (item.item_id ∷ seen) items e in
      ((valid, vs), (new, fs))
