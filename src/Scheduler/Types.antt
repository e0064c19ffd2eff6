-- ===== src/Scheduler/Types.antt =====
-- The data of src/aethos_core/encounter_scheduler.rs. An i32 is a `ℤ` and a u64 a `ℕ`; `F` is f64.
-- A weight, and a score in millionths, is never negative: it is a `ℕ`.
use aethos_linux.Base.{ℕ, Bool, List, Option, none}
use aethos_linux.Base.Int.{ℤ, pos}
use aethos_linux.Base.Text.{Text}

pub record EncounterScoreWeights : Type 0 where
  pub scarcity : ℕ
  pub safety : ℕ
  pub expiry : ℕ
  pub stagnation : ℕ
  pub proximity : ℕ
  pub size : ℕ
  pub intent : ℕ
  pub content_class : ℕ

abbrev pub canonical_v1 : EncounterScoreWeights
canonical_v1 = record {
  scarcity = 26;
  safety = 22;
  expiry = 16;
  stagnation = 12;
  proximity = 10;
  size = 8;
  intent = 4;
  content_class = 2;
}

pub data EncounterTieBreakReason : Type 0 where
  no_tie by_size_bytes by_expiry_at_unix_ms by_known_replica_count : EncounterTieBreakReason
  by_last_forwarded_at_unix_ms by_destination_rank by_item_id : EncounterTieBreakReason

pub data EncounterSelectionReason : Type 0 where
  selected_prefix : EncounterSelectionReason

pub data EncounterSelectionStopReason : Type 0 where
  completed budget_items_exhausted budget_bytes_exhausted : EncounterSelectionStopReason
  encounter_time_exhausted durable_ratio_cap_reached : EncounterSelectionStopReason
  no_eligible_items : EncounterSelectionStopReason

pub data ProximityClass : Type 0 where
  destination_peer likely_closer other : ProximityClass

pub record EncounterScoreComponents (F : Type 0) : Type 0 where
  pub scarcity : F
  pub safety : F
  pub expiry : F
  pub stagnation : F
  pub proximity : F
  pub size : F
  pub intent : F
  pub content_class : F

pub record EncounterScoreBreakdown (F : Type 0) : Type 0 where
  pub item_id : Text
  pub components : EncounterScoreComponents F
  pub score_numerator : ℕ
  pub score : F

pub record BudgetProfile (F : Type 0) : Type 0 where
  pub max_items : ℤ
  pub max_bytes : ℤ
  pub max_duration_ms : Option ℤ
  pub durable_cargo_ratio_cap : Option F
  pub preferred_transfer_unit_bytes : ℤ
  pub expiry_urgency_horizon_ms : ℕ
  pub stagnation_horizon_ms : ℕ
  pub target_replica_count_default : ℤ

-- `BudgetProfile::new`
abbrev pub new_budget : {F : Type 0} → ℤ → ℤ → BudgetProfile F
new_budget max_items max_bytes = record {
  max_items = max_items;
  max_bytes = max_bytes;
  max_duration_ms = none;
  durable_cargo_ratio_cap = none;
  preferred_transfer_unit_bytes = pos 32_768;
  expiry_urgency_horizon_ms = 900_000;
  stagnation_horizon_ms = 3_600_000;
  target_replica_count_default = pos 6;
}

pub record CargoItem (F : Type 0) : Type 0 where
  pub item_id : Text
  pub tier : ℤ
  pub size_bytes : ℤ
  pub expiry_at_unix_ms : ℕ
  pub known_replica_count : Option ℤ
  pub target_replica_count : Option ℤ
  pub durably_stored : Option Bool
  pub relay_ingested : Option Bool
  pub receipt_coverage : Option F
  pub last_forwarded_at_unix_ms : Option ℕ
  pub proximity_class : Option ProximityClass
  pub explicit_user_initiated : Option Bool
  pub content_class_score : Option F
  pub destination_rank : ℤ
  pub estimated_duration_ms : Option ℤ

pub record RankedCargoItem (F : Type 0) : Type 0 where
  pub cargo_item : CargoItem F
  pub score_breakdown : EncounterScoreBreakdown F
  pub tie_break_reason : EncounterTieBreakReason
  pub selection_reason : Option EncounterSelectionReason

pub record EncounterSchedulerResult (F : Type 0) : Type 0 where
  pub ranked_items : List (RankedCargoItem F)
  pub selected_prefix : List (RankedCargoItem F)
  pub score_breakdowns : List (EncounterScoreBreakdown F)
  pub stop_reason : EncounterSelectionStopReason
  pub tie_break_reason : EncounterTieBreakReason

pub data SchedulerError : Type 0 where
  invalid_budget_max_items : ℤ → SchedulerError
  invalid_budget_max_bytes : ℤ → SchedulerError
  invalid_budget_max_duration_ms : ℤ → SchedulerError
  invalid_budget_preferred_transfer_unit_bytes : ℤ → SchedulerError
  invalid_budget_target_replica_count_default : ℤ → SchedulerError
  invalid_tier : Text → ℤ → SchedulerError
  invalid_size_bytes : Text → ℤ → SchedulerError
  invalid_destination_rank : Text → ℤ → SchedulerError
  invalid_known_replica_count : Text → ℤ → SchedulerError
  invalid_target_replica_count : Text → ℤ → SchedulerError
  invalid_estimated_duration_ms : Text → ℤ → SchedulerError
  invalid_item_id : Text → SchedulerError
  duplicate_item_id : Text → SchedulerError

pub record EncounterSchedulerV1 : Type 0 where
  pub score_weights : EncounterScoreWeights
  pub clock_skew_tolerance_ms : ℕ

-- `EncounterSchedulerV1::new`
abbrev pub new_scheduler : EncounterSchedulerV1
new_scheduler = record { score_weights = canonical_v1; clock_skew_tolerance_ms = 30_000 }

pub record ScoredItem (F : Type 0) : Type 0 where
  pub cargo_item : CargoItem F
  pub known_replica_count : ℤ
  pub last_forwarded_at_unix_ms : ℕ
  pub score_breakdown : EncounterScoreBreakdown F
