-- ===== src/Scheduler/Validate.antt =====
-- `validate_budget`, `validate_and_filter_eligible` and the scheduler's own `is_valid_item_id`.
pub mod Accepts
use aethos_linux.Base.{
  ℕ, Bool, true, false, not, ◌&&◌, ◌||◌, List, [], ◌∷◌, Option, none, some, ltb, leb, ◌==◌,
  if◌then◌else◌, length, saturating_add,
}
use aethos_linux.Base.Int.{ℤ, pos, ltb_ℤ}
use aethos_linux.Base.Text.{Text, contains}
use aethos_linux.Base.Result.{Result, ok, err, ◌>>=◌, ◌>>◌, refuse_if}
use aethos_linux.Hex.{is_ascii_digit, all_bytes}
use aethos_linux.Scheduler.Types.{
  BudgetProfile, CargoItem, SchedulerError, EncounterSchedulerV1, invalid_budget_max_items,
  invalid_budget_max_bytes, invalid_budget_max_duration_ms,
  invalid_budget_preferred_transfer_unit_bytes, invalid_budget_target_replica_count_default,
  invalid_tier, invalid_size_bytes, invalid_destination_rank, invalid_known_replica_count,
  invalid_target_replica_count, invalid_estimated_duration_ms, invalid_item_id, duplicate_item_id,
}

unfoldable pub is_valid_item_id : Text → Bool
unfolding all_bytes is_ascii_digit
is_valid_item_id value =
    length value == 64
    && all_bytes (λ byte. is_ascii_digit byte || (leb b'a' byte && leb byte b'f')) value

-- `if let Some(value) = field { if value < least { return Err(...); } }`
unfoldable pub refuse_below : Option ℤ → ℤ → (ℤ → SchedulerError) → Result SchedulerError (Unit {0})
refuse_below none least error = ok tt
refuse_below (some value) least error = refuse_if (ltb_ℤ value least) (error value)

module _ {F : Type 0} where
  unfoldable pub validate_budget : BudgetProfile F → Result SchedulerError (Unit {0})
  validate_budget budget = do
    refuse_if (ltb_ℤ budget.max_items (pos 0)) (invalid_budget_max_items budget.max_items)
    refuse_if (ltb_ℤ budget.max_bytes (pos 0)) (invalid_budget_max_bytes budget.max_bytes)
    refuse_below budget.max_duration_ms (pos 0) invalid_budget_max_duration_ms
    refuse_if (ltb_ℤ budget.preferred_transfer_unit_bytes (pos 1))
        (invalid_budget_preferred_transfer_unit_bytes budget.preferred_transfer_unit_bytes)
    refuse_if (ltb_ℤ budget.target_replica_count_default (pos 1))
        (invalid_budget_target_replica_count_default budget.target_replica_count_default)

  -- The checks of one round of the loop over `cargo_items`.
  unfoldable pub validate_item : List Text → CargoItem F → Result SchedulerError (Unit {0})
  validate_item seen item = do
    refuse_if (not (is_valid_item_id item.item_id)) (invalid_item_id item.item_id)
    refuse_if (contains seen item.item_id) (duplicate_item_id item.item_id)
    refuse_if (ltb_ℤ item.tier (pos 0) || ltb_ℤ (pos 5) item.tier)
        (invalid_tier item.item_id item.tier)
    refuse_if (ltb_ℤ item.size_bytes (pos 1)) (invalid_size_bytes item.item_id item.size_bytes)
    refuse_if (ltb_ℤ item.destination_rank (pos 0))
        (invalid_destination_rank item.item_id item.destination_rank)
    refuse_below item.known_replica_count (pos 0) (invalid_known_replica_count item.item_id)
    refuse_below item.target_replica_count (pos 1) (invalid_target_replica_count item.item_id)
    refuse_below item.estimated_duration_ms (pos 0) (invalid_estimated_duration_ms item.item_id)

  -- The loop: `seen` is the set of the identifiers met so far.
  unfoldable pub eligible_from :
      ℕ → List Text → List (CargoItem F) → Result SchedulerError (List (CargoItem F))
  eligible_from expiry_threshold seen [] = ok []
  eligible_from expiry_threshold seen (item ∷ cargo_items) = do
    validate_item seen item
    eligible ← eligible_from expiry_threshold (item.item_id ∷ seen) cargo_items
    ok (if ltb expiry_threshold item.expiry_at_unix_ms then item ∷ eligible else eligible)

  unfoldable pub validate_and_filter_eligible :
      EncounterSchedulerV1 → List (CargoItem F) → ℕ → Result SchedulerError (List (CargoItem F))
  validate_and_filter_eligible self cargo_items now_unix_ms =
      eligible_from (saturating_add now_unix_ms self.clock_skew_tolerance_ms) [] cargo_items
