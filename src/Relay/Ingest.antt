-- ===== src/Relay/Ingest.antt =====
-- The selection of the item identifiers that a relay offers, src/relay/client.rs: when a relay
-- offers more than are processed in a round, a window over the sorted identifiers moves on with
-- each round of the day. The registry of rounds, a global under a mutex (a poisoned one is
-- recovered as it is), is state that the operations pass on; SHA-256 is a parameter.
pub mod Window
pub mod Distinct
pub mod Counts
mod Examples
use aethos_linux.Base.{
  ℕ, zero, suc, ◌+◌, ◌-◌, ◌*◌, ◌/◌, ◌%◌, ◌^◌, Bool, true, false, not, List, [], ◌∷◌, ◌++◌, Option,
  none, some, ◌==◌, leb, if◌then◌else◌, filter, length, get_elem?, take, u64_max, saturating_add,
}
use aethos_linux.Base.Sort.{sort_by}
use aethos_linux.Base.Text.{Text, text_lt, dedup}
use aethos_linux.Base.Result.{Result, ok, err}
use aethos_linux.Base.Assoc.{lookup, insert}
use aethos_linux.Relay.Lease.{relay_session_key}

abbrev pub relay_ingest_process_max_items : ℕ
relay_ingest_process_max_items = 1_024

abbrev pub unix_day_ms : ℕ
unix_day_ms = 86_400_000

pub record RelayIngestWindowState : Type 0 where
  pub day : ℕ
  pub round : ℕ

pub record RelayIngestItemSelection : Type 0 where
  pub processed_item_ids : List Text
  pub input_item_ids : ℕ
  pub unique_item_ids : ℕ
  pub deduped_item_ids : ℕ
  pub truncated_item_ids : ℕ
  pub window_offset : ℕ
  pub window_round : ℕ

-- RELAY_INGEST_WINDOW_REGISTRY
abbrev pub WindowRegistry : Type 0
WindowRegistry = List (Text × RelayIngestWindowState)

unfoldable pub should_stop_for_no_progress : ℕ → Bool
should_stop_for_no_progress streak = leb 2 streak

unfoldable pub unix_day : ℕ → ℕ
unix_day now_ms = now_ms / unix_day_ms

-- The items at the places `(window_offset + idx) % len` for `count` values of `idx` from `idx` on.
unfoldable pub window_from : List Text → ℕ → ℕ → ℕ → List Text
window_from item_ids window_offset idx zero = []
window_from item_ids window_offset idx (suc count) =
    let rest = window_from item_ids window_offset (suc idx) count in
    elim (get_elem? item_ids ((window_offset + idx) % length item_ids)) [
      | none ↦ rest
      | some item_id ↦ item_id ∷ rest
    ]

unfoldable pub select_relay_ingest_window_with_wraparound : List Text → ℕ → ℕ → List Text
unfolding window_from
select_relay_ingest_window_with_wraparound sorted_unique_item_ids max_items window_offset =
    if leb (length sorted_unique_item_ids) max_items
    then sorted_unique_item_ids
    else window_from sorted_unique_item_ids window_offset 0 max_items

-- The entry of the key after `or_insert` and the reset.
unfoldable pub state_of_day : Option RelayIngestWindowState → ℕ → RelayIngestWindowState
state_of_day none day = record { day = day; round = 0 }
state_of_day (some state) day = if state.day == day then state else record { day = day; round = 0 }

unfoldable pub next_relay_ingest_window_round :
    WindowRegistry → Text → Text → ℕ → WindowRegistry × ℕ
unfolding unix_day state_of_day lookup insert relay_session_key saturating_add
next_relay_ingest_window_round registry relay_ws wayfarer_id now_ms =
    let key = relay_session_key relay_ws wayfarer_id in
    let day = unix_day now_ms in
    let retained = filter (λ entry. entry.1.day == day) registry in
    let state = state_of_day (lookup key retained) day in
    (insert key (record state { round = saturating_add state.round 1 }) retained, state.round)

-- `to_be_bytes` and `from_be_bytes` of a u64.
unfoldable pub to_be_bytes : ℕ → ℕ → Text
to_be_bytes zero n = []
to_be_bytes (suc width) n = n / 256 ^ width % 256 ∷ to_be_bytes width n

unfoldable pub from_be_bytes : ℕ → Text → ℕ
from_be_bytes acc [] = acc
from_be_bytes acc (byte ∷ bytes) = from_be_bytes (acc * 256 + byte) bytes

module _ (sha256 : Text → Text) where
  unfoldable pub relay_ingest_seed_offset : Text → Text → ℕ → ℕ → ℕ
  unfolding to_be_bytes from_be_bytes
  relay_ingest_seed_offset relay_ws wayfarer_id day zero = 0
  relay_ingest_seed_offset relay_ws wayfarer_id day (suc modulo) =
      let digest = sha256 (relay_ws ++ (0 ∷ []) ++ wayfarer_id ++ (0 ∷ []) ++ to_be_bytes 8 day) in
      from_be_bytes 0 (take 8 digest) % suc modulo

  unfoldable pub window_offset_of : Text → Text → ℕ → ℕ → ℕ → ℕ
  unfolding relay_ingest_seed_offset unix_day
  window_offset_of relay_ws wayfarer_id now_ms unique_item_ids round =
      let seed_offset =
        relay_ingest_seed_offset relay_ws wayfarer_id (unix_day now_ms) unique_item_ids in
      let round_index = round % unique_item_ids in
      let round_offset = round_index * relay_ingest_process_max_items % unique_item_ids in
      (seed_offset + round_offset) % unique_item_ids

  unfoldable pub select_relay_ingest_item_ids_for_processing :
      WindowRegistry → List Text → Text → Text → ℕ → WindowRegistry × RelayIngestItemSelection
  unfolding sort_by dedup next_relay_ingest_window_round window_offset_of
      select_relay_ingest_window_with_wraparound
  select_relay_ingest_item_ids_for_processing registry item_ids relay_ws wayfarer_id now_ms =
      let input_item_ids = length item_ids in
      let unique_sorted_item_ids = dedup (sort_by text_lt item_ids) in
      let unique_item_ids = length unique_sorted_item_ids in
      let deduped_item_ids = input_item_ids - unique_item_ids in
      if leb unique_item_ids relay_ingest_process_max_items
      then (
        registry,
        record {
          processed_item_ids = unique_sorted_item_ids;
          input_item_ids = input_item_ids;
          unique_item_ids = unique_item_ids;
          deduped_item_ids = deduped_item_ids;
          truncated_item_ids = 0;
          window_offset = 0;
          window_round = 0;
        },
      )
      else let next = next_relay_ingest_window_round registry relay_ws wayfarer_id now_ms in
        let window_offset = window_offset_of relay_ws wayfarer_id now_ms unique_item_ids next.1 in
        (
          next.0,
          record {
            processed_item_ids =
                select_relay_ingest_window_with_wraparound unique_sorted_item_ids
                  relay_ingest_process_max_items window_offset;
            input_item_ids = input_item_ids;
            unique_item_ids = unique_item_ids;
            deduped_item_ids = deduped_item_ids;
            truncated_item_ids = unique_item_ids - relay_ingest_process_max_items;
            window_offset = window_offset;
            window_round = next.1;
          },
        )

  -- `lookup_missing`, a query of the store, is an argument. A failure leaves the candidates of the
  -- previous round, which is `none`.
  unfoldable pub relay_ingest_candidates_with_lookup :
      (List Text → Result Text (List Text))
      → WindowRegistry
      → List Text
      → Text
      → Text
      → ℕ
      → WindowRegistry × (Option (List Text) × RelayIngestItemSelection)
  unfolding select_relay_ingest_item_ids_for_processing sort_by dedup
  relay_ingest_candidates_with_lookup lookup_missing registry item_ids relay_ws wayfarer_id now_ms =
      let next =
        select_relay_ingest_item_ids_for_processing registry item_ids relay_ws wayfarer_id now_ms in
      elim (lookup_missing next.1.processed_item_ids) [
        | ok candidates ↦ (next.0, (some (dedup (sort_by text_lt candidates)), next.1))
        | err e ↦ (next.0, (none, next.1))
      ]
