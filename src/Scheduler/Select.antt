-- ===== src/Scheduler/Select.antt =====
-- The selection loop of `schedule` and `is_durable_cargo_tier`.
pub mod Prefix
pub mod Measure
pub mod Budget
use aethos_linux.Base.{
  ℕ, zero, suc, Bool, true, false, ◌||◌, List, [], ◌∷◌, Option, none, some, ltb, leb, ◌==◌,
  if◌then◌else◌, get_elem?,
}
use aethos_linux.Base.Int.{ℤ, pos, pos_part, ltb_ℤ, eqb_ℤ, max_ℤ, saturating_add_i32}
use aethos_linux.Scheduler.Float.{FloatOps}
use aethos_linux.Scheduler.Types.{
  BudgetProfile, CargoItem, RankedCargoItem, EncounterSelectionStopReason, completed,
  budget_items_exhausted, budget_bytes_exhausted, encounter_time_exhausted,
  durable_ratio_cap_reached, selected_prefix,
}
use aethos_linux.Scheduler.Score.{unwrap_or}

unfoldable pub is_durable_cargo_tier : ℤ → Bool
is_durable_cargo_tier tier = eqb_ℤ tier (pos 4) || eqb_ℤ tier (pos 5)

-- The variables of the loop; `selected` is `selected_indices.len()`.
pub record Selection : Type 0 where
  pub selected : ℕ
  pub total_bytes : ℤ
  pub durable_cargo_bytes : ℤ
  pub duration_ms : ℤ

abbrev pub nothing_selected : Selection
nothing_selected = record {
  selected = 0;
  total_bytes = pos 0;
  durable_cargo_bytes = pos 0;
  duration_ms = pos 0;
}

module _ {F : Type 0} where
  -- The durable bytes with the candidate's, if its tier is durable.
  unfoldable pub projected_durable : Selection → CargoItem F → ℤ
  unfolding is_durable_cargo_tier saturating_add_i32
  projected_durable sel candidate =
      saturating_add_i32 sel.durable_cargo_bytes
        (if is_durable_cargo_tier candidate.tier then candidate.size_bytes else pos 0)

  unfoldable pub projected_duration : Selection → CargoItem F → ℤ
  unfolding saturating_add_i32
  projected_duration sel candidate =
      saturating_add_i32 sel.duration_ms (unwrap_or candidate.estimated_duration_ms (pos 0))

  unfoldable pub over_duration : Option ℤ → Selection → CargoItem F → Bool
  unfolding projected_duration
  over_duration none sel candidate = false
  over_duration (some max_duration_ms) sel candidate =
      ltb_ℤ max_duration_ms (projected_duration sel candidate)

  -- The statements at the end of a round that selects the candidate.
  unfoldable pub select_one : Selection → CargoItem F → Selection
  unfolding saturating_add_i32 projected_duration is_durable_cargo_tier
  select_one sel candidate = record {
    selected = suc sel.selected;
    total_bytes = saturating_add_i32 sel.total_bytes candidate.size_bytes;
    durable_cargo_bytes =
        if is_durable_cargo_tier candidate.tier
        then saturating_add_i32 sel.durable_cargo_bytes candidate.size_bytes
        else sel.durable_cargo_bytes;
    duration_ms = projected_duration sel candidate;
  }

module _ {F : Type 0} (fl : FloatOps F) where
  open fl use {lit, of_i32, div, gt}

  unfoldable pub over_ratio : Option F → Selection → CargoItem F → ℤ → Bool
  unfolding projected_durable
  over_ratio none sel candidate projected_total_bytes = false
  over_ratio (some cap) sel candidate projected_total_bytes =
      gt
        (if ltb_ℤ (pos 0) projected_total_bytes
          then div (of_i32 (projected_durable sel candidate)) (of_i32 projected_total_bytes)
          else lit 0 1)
        cap

  -- Why the loop stops at a candidate, in the order of its tests.
  unfoldable pub refusal :
      BudgetProfile F → Option F → Selection → CargoItem F → Option EncounterSelectionStopReason
  refusal budget cap sel candidate =
      let projected_total_bytes = saturating_add_i32 sel.total_bytes candidate.size_bytes in
      if leb (pos_part (max_ℤ budget.max_items (pos 0))) sel.selected
      then some budget_items_exhausted
      else if ltb_ℤ budget.max_bytes projected_total_bytes
      then some budget_bytes_exhausted
      else if over_duration budget.max_duration_ms sel candidate
      then some encounter_time_exhausted
      else if over_ratio cap sel candidate projected_total_bytes
      then some durable_ratio_cap_reached
      else none

  -- The loop: the selected indices in order, and the stop reason.
  unfoldable pub select_from :
      BudgetProfile F
      → Option F
      → Selection
      → ℕ
      → List (RankedCargoItem F)
      → List ℕ × EncounterSelectionStopReason
  unfolding refusal select_one
  select_from budget cap sel index [] = ([], completed)
  select_from budget cap sel index (ranked ∷ rest) =
      elim (refusal budget cap sel ranked.cargo_item) [
        | some reason ↦ ([], reason)
        | none ↦
            let later =
              select_from budget cap (select_one sel ranked.cargo_item) (suc index) rest in
            (index ∷ later.0, later.1)
      ]

-- `selected_index_set.contains(&index)`
unfoldable pub contains_index : List ℕ → ℕ → Bool
contains_index [] index = false
contains_index (i ∷ indices) index = i == index || contains_index indices index

module _ {F : Type 0} where
  unfoldable pub mark_selected : List ℕ → ℕ → List (RankedCargoItem F) → List (RankedCargoItem F)
  unfolding contains_index
  mark_selected indices index [] = []
  mark_selected indices index (ranked ∷ rest) =
      (if contains_index indices index
        then record ranked { selection_reason = some selected_prefix }
        else ranked)
      ∷ mark_selected indices (suc index) rest

  -- `indices.iter().map(|index| items[*index].clone())`; an index past the end is a panic in the
  -- source, and is left out here.
  unfoldable pub pick : List ℕ → List (RankedCargoItem F) → List (RankedCargoItem F)
  pick [] items = []
  pick (index ∷ indices) items = elim (get_elem? items index) [
    | none ↦ pick indices items
    | some item ↦ item ∷ pick indices items
  ]
