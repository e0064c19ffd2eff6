-- ===== src/Gossip/Transfer.antt =====
-- The objects that a client sends on a REQUEST, src/aethos_core/gossip_sync.rs: the plan of the
-- encounter scheduler, and the legacy plan that a debug build falls back to on request. What
-- only the log and the telemetry print is left out.
pub mod Legacy
pub mod Chosen
mod Examples
use aethos_linux.Base.{
  ℕ, ◌+◌, ◌-◌, Bool, true, false, not, ◌&&◌, ◌||◌, List, [], ◌∷◌, ◌++◌, Option, none, some, leb,
  ltb, ◌==◌, if◌then◌else◌, map, length, min, saturating_add, u64_max,
}
use aethos_linux.Base.Int.{ℤ, pos, as_i32, max_ℤ, min_ℤ}
use aethos_linux.Base.Sort.{sort_by}
use aethos_linux.Base.Sort.Order.{then_by, nat_ord, text_ord}
use aethos_linux.Base.Text.{Text, message, text_eq}
use aethos_linux.Base.Result.{Result, ok, err, ◌>>=◌, ◌>>◌, map_err}
use aethos_linux.Base.Assoc.{lookup, insert}
use aethos_linux.Store.Types.{StoredItemRecord, Table}
use aethos_linux.Store.Select.{transfer_candidates_for_request}
use aethos_linux.Envelope.Build.{Crates}
use aethos_linux.Envelope.Decode.{decode_envelope_payload_b64}
use aethos_linux.Scheduler.Float.{FloatOps}
use aethos_linux.Scheduler.Types.{
  BudgetProfile, CargoItem, RankedCargoItem, EncounterSchedulerResult, SchedulerError,
  ProximityClass, destination_peer, likely_closer, other, new_scheduler,
}
use aethos_linux.Scheduler.Plan.{schedule}
use aethos_linux.Gossip.Types.{TransferObject, max_transfer_items, max_transfer_bytes}

-- `hop_count.saturating_add(1)` on u16.
abbrev pub next_hop : ℕ → ℕ
next_hop hop_count = min (hop_count + 1) 65_535

unfoldable pub transfer_object : StoredItemRecord → TransferObject
transfer_object stored = record {
  item_id = stored.item_id;
  envelope_b64 = stored.envelope_b64;
  expiry_unix_ms = stored.expiry_unix_ms;
  hop_count = next_hop stored.hop_count;
}

pub data LegacyPlannerStopReason : Type 0 where
  completed budget_items_exhausted budget_bytes_exhausted : LegacyPlannerStopReason

-- The variables of the loop of `build_legacy_transfer_plan`.
pub record LegacySelection : Type 0 where
  pub selected : List TransferObject
  pub consumed_bytes : ℕ
  pub stop_reason : LegacyPlannerStopReason

pub record LegacyTransferPlan : Type 0 where
  pub selected : List TransferObject
  pub consumed_bytes : ℕ
  pub stop_reason : LegacyPlannerStopReason
  pub ranking_order : List Text

module _ (crates : Crates) where
  -- The loop of `build_legacy_transfer_plan`; `selected` is what was selected so far.
  unfoldable pub legacy_from :
      ℕ → ℕ → List TransferObject → ℕ → List StoredItemRecord → Result Text LegacySelection
  unfolding transfer_object
  legacy_from max_items max_bytes selected consumed_bytes [] =
      ok (record { selected = selected; consumed_bytes = consumed_bytes; stop_reason = completed })
  legacy_from max_items max_bytes selected consumed_bytes (stored ∷ rest) =
      if leb max_items (length selected) || leb max_transfer_items (length selected)
      then ok (record {
        selected = selected;
        consumed_bytes = consumed_bytes;
        stop_reason = budget_items_exhausted;
      })
      else elim (crates.base64_decode stored.envelope_b64) [
        | none ↦ err (message "stored envelope decode failed")
        | some envelope_raw ↦
            let projected = saturating_add consumed_bytes (length envelope_raw) in
            let next =
              legacy_from max_items max_bytes (selected ++ transfer_object stored ∷ []) projected
                rest in
            if ltb max_bytes projected
            then ok (record {
              selected = selected;
              consumed_bytes = consumed_bytes;
              stop_reason = budget_bytes_exhausted;
            })
            else next
      ]

  unfoldable pub build_legacy_transfer_plan :
      List StoredItemRecord → ℕ → ℕ → Result Text LegacyTransferPlan
  unfolding legacy_from
  build_legacy_transfer_plan sorted_candidates max_items max_bytes = do
    chosen ← legacy_from max_items (min max_bytes max_transfer_bytes) [] 0 sorted_candidates
    ok (record {
      selected = chosen.selected;
      consumed_bytes = chosen.consumed_bytes;
      stop_reason = chosen.stop_reason;
      ranking_order = map (λ stored. stored.item_id) sorted_candidates;
    })

-- The order of the legacy plan.
unfoldable pub legacy_before : StoredItemRecord → StoredItemRecord → Bool
legacy_before =
    then_by nat_ord (λ item. length item.envelope_b64) (λ a b. text_ord.before a.item_id b.item_id)

-- `proximity`
unfoldable pub proximity_of : Option Text → Text → ProximityClass
unfolding text_eq
proximity_of none to_wayfarer_id_hex = other
proximity_of (some peer) to_wayfarer_id_hex =
    if text_eq to_wayfarer_id_hex peer then destination_peer else likely_closer

abbrev is_destination : ProximityClass → Bool
is_destination destination_peer = true
is_destination likely_closer = false
is_destination other = false

unfoldable pub tier_of : ℕ → ℕ → ProximityClass → ℤ
tier_of body_bytes ttl_ms proximity =
    if leb body_bytes 1_024 && leb ttl_ms 900_000
    then if is_destination proximity then pos 1 else pos 2
    else pos 4

pub record SchedulerTransferPlan (F : Type 0) : Type 0 where
  pub selected : List TransferObject
  pub consumed_bytes : ℕ
  pub result : EncounterSchedulerResult F

module _ {F : Type 0} (fl : FloatOps F) (crates : Crates) where
  -- Its item for the scheduler, and the length of its decoded envelope.
  unfoldable pub shadow_profile_from_stored :
      StoredItemRecord → ℕ → Option Text → Result Text (ℕ × CargoItem F)
  unfolding decode_envelope_payload_b64 proximity_of tier_of as_i32
  shadow_profile_from_stored stored now_ms peer_wayfarer_id =
      map_err (λ e. message "decode transfer candidate payload failed: " ++ e)
        (decode_envelope_payload_b64 crates stored.envelope_b64)
      >>= λ decoded. elim (crates.base64_decode stored.envelope_b64) [
        | none ↦ err (message "decode transfer candidate envelope bytes failed")
        | some raw ↦
            let proximity = proximity_of peer_wayfarer_id decoded.to_wayfarer_id_hex in
            ok (
              length raw,
              record {
                item_id = stored.item_id;
                tier = tier_of (length decoded.body) (stored.expiry_unix_ms - now_ms) proximity;
                size_bytes = max_ℤ (pos 1) (as_i32 (length decoded.body));
                expiry_at_unix_ms = stored.expiry_unix_ms;
                known_replica_count = some (pos stored.hop_count);
                target_replica_count = some (pos 6);
                durably_stored = some false;
                relay_ingested = some (ltb 0 stored.hop_count);
                receipt_coverage = some (fl.lit 0 1);
                last_forwarded_at_unix_ms = some stored.recorded_at_unix_ms;
                proximity_class = some proximity;
                explicit_user_initiated = some false;
                content_class_score = some (fl.lit 0 1);
                destination_rank = if is_destination proximity then pos 1 else pos 0;
                estimated_duration_ms = none;
              },
            )
      ]

  abbrev pub Profile : Type 0
  Profile = StoredItemRecord × (ℕ × CargoItem F)

  -- The loop over `candidates`: each with its profile.
  unfoldable pub profiles_of : List StoredItemRecord → ℕ → Option Text → Result Text (List Profile)
  unfolding shadow_profile_from_stored
  profiles_of [] now_ms peer_wayfarer_id = ok []
  profiles_of (candidate ∷ candidates) now_ms peer_wayfarer_id =
      shadow_profile_from_stored candidate now_ms peer_wayfarer_id >>= λ profile.
      profiles_of candidates now_ms peer_wayfarer_id >>= λ rest. ok ((candidate, profile) ∷ rest)

  -- `item_to_stored` and `item_to_wire_size`, in which a later candidate takes the place of an
  -- earlier one of the same identifier.
  unfoldable pub profile_map : List (Text × Profile) → List Profile → List (Text × Profile)
  unfolding insert
  profile_map profiles [] = profiles
  profile_map profiles (profile ∷ rest) =
      profile_map (insert profile.0.item_id profile profiles) rest

  abbrev pub transfer_budget : ℕ → ℕ → BudgetProfile F
  transfer_budget max_items max_bytes = record {
    max_items = min_ℤ (as_i32 max_items) (pos max_transfer_items);
    max_bytes = as_i32 (min max_bytes max_transfer_bytes);
    max_duration_ms = none;
    durable_cargo_ratio_cap = none;
    preferred_transfer_unit_bytes = pos 32_768;
    expiry_urgency_horizon_ms = 900_000;
    stagnation_horizon_ms = 3_600_000;
    target_replica_count_default = pos 6;
  }

  -- The error prints as `error_text` says.
  unfoldable pub schedule_transfer_candidates :
      (SchedulerError → Text)
      → ℕ
      → ℕ
      → ℕ
      → List (CargoItem F)
      → Result Text (EncounterSchedulerResult F)
  unfolding schedule
  schedule_transfer_candidates error_text max_items max_bytes now_ms scheduler_items =
      map_err (λ e. message "encounter scheduler primary planning failed: " ++ error_text e)
        (schedule fl new_scheduler (transfer_budget max_items max_bytes) now_ms scheduler_items)

  -- The loop over the selected prefix.
  unfoldable pub select_objects :
      List (Text × Profile) → ℕ → List (RankedCargoItem F) → Result Text (List TransferObject × ℕ)
  unfolding lookup transfer_object
  select_objects profiles consumed_bytes [] = ok ([], consumed_bytes)
  select_objects profiles consumed_bytes (ranked ∷ rest) =
      elim (lookup ranked.cargo_item.item_id profiles) [
        | none ↦ err (message "scheduler selected unknown item_id: " ++ ranked.cargo_item.item_id)
        | some profile ↦
            select_objects profiles (saturating_add consumed_bytes profile.1.0) rest >>= λ done.
            ok (transfer_object profile.0 ∷ done.0, done.1)
      ]

  unfoldable pub build_scheduler_transfer_plan :
      (SchedulerError → Text)
      → List StoredItemRecord
      → ℕ
      → ℕ
      → ℕ
      → Option Text
      → Result Text (SchedulerTransferPlan F)
  unfolding profiles_of profile_map schedule_transfer_candidates select_objects
  build_scheduler_transfer_plan error_text candidates max_items max_bytes now_ms peer_wayfarer_id =
      do
        profiles ← profiles_of candidates now_ms peer_wayfarer_id
        result ←
            schedule_transfer_candidates error_text max_items max_bytes now_ms
              (map (λ profile. profile.1.1) profiles)
        chosen ← select_objects (profile_map [] profiles) 0 result.selected_prefix
        ok (record { selected = chosen.0; consumed_bytes = chosen.1; result = result })

  -- `should_use_legacy_transfer_fallback` is an argument.
  unfoldable pub transfer_items_for_request :
      (SchedulerError → Text)
      → Bool
      → Table
      → List Text
      → ℕ
      → ℕ
      → ℕ
      → Option Text
      → Result Text (List TransferObject)
  unfolding transfer_candidates_for_request build_scheduler_transfer_plan build_legacy_transfer_plan
      sort_by legacy_before
  transfer_items_for_request error_text use_legacy table requested_item_ids max_items max_bytes
        now_ms peer_wayfarer_id =
      do
        let candidates = transfer_candidates_for_request table requested_item_ids now_ms
        plan ←
            build_scheduler_transfer_plan error_text candidates max_items max_bytes now_ms
              peer_wayfarer_id
        let legacy =
            build_legacy_transfer_plan crates (sort_by legacy_before candidates) max_items max_bytes
        if use_legacy then legacy >>= (λ l. ok l.selected) else ok plan.selected
