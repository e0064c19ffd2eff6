-- ===== src/Gossip/Summary.antt =====
-- What a client tells a peer of its store, src/aethos_core/gossip_sync.rs: the HELLO, SUMMARY and
-- RELAY_INGEST frames, and `record_local_payload`. The identity of the node, which
-- `ensure_local_identity` may fail to give, is an optional argument, and so is the clock that
-- `now_unix_ms` reads; an item's envelope that does not decode is advertised.
pub mod Advertised
mod Examples
use aethos_linux.Base.{
  ℕ, ◌+◌, Bool, true, false, not, ◌||◌, List, [], ◌∷◌, ◌++◌, Option, none, some, leb, if◌then◌else◌,
  map, filter, take, length, min, max,
}
use aethos_linux.Base.Sort.{sort_by}
use aethos_linux.Base.Sort.Order.{then_by, dual, nat_ord, text_ord}
use aethos_linux.Base.Text.{Text, codes, message, text_eq, dedup}
use aethos_linux.Base.Result.{Result, ok, err, ◌>>=◌, ◌>>◌, refuse_if}
use aethos_linux.Base.Assoc.{lookup}
use aethos_linux.Hex.{bytes_to_hex_lower}
use aethos_linux.Store.Types.{StoredItemRecord, RecordPutOutcome, Table, clock_skew_tolerance_ms}
use aethos_linux.Store.{record_local_item}
use aethos_linux.Store.Select.{get_existing_items_for_ids, summary_preview_candidates}
use aethos_linux.Store.Select as Select
use aethos_linux.Envelope.Build.{Crates}
use aethos_linux.Envelope.Decode.{decode_envelope_payload_b64}
use aethos_linux.Gossip.Types.{
  HelloFrame, GossipSyncFrame, hello, summary, relay_ingest, gossip_version, max_want_items,
  max_transfer_items, max_summary_preview_items,
}
use aethos_linux.Gossip.Validate.{validate_frame, contains_byte, last}
use aethos_linux.Gossip.Validate.Accepts.{decoded_key}
use aethos_linux.Gossip.Request.{sort_by_decoded}
use aethos_linux.Gossip.Bloom.{build_bloom_filter}

-- `existing.contains_key(item_id)`
abbrev is_known : List (Text × StoredItemRecord) → Text → Bool
is_known existing item_id = elim (lookup item_id existing) [ none ↦ false | some stored ↦ true ]

unfoldable pub missing_item_ids : Table → List Text → List Text
unfolding get_existing_items_for_ids lookup
missing_item_ids table [] = []
missing_item_ids table (first ∷ item_ids) =
    let existing = get_existing_items_for_ids table (first ∷ item_ids) in
    filter (λ item_id. not (is_known existing item_id)) (first ∷ item_ids)

module _ (crates : Crates) (local_wayfarer_id : Option Text) where
  -- Whether the envelope decodes and is for the node itself.
  unfoldable pub is_for : Text → Text → Bool
  unfolding decode_envelope_payload_b64 text_eq
  is_for wayfarer_id envelope_b64 = elim (decode_envelope_payload_b64 crates envelope_b64) [
    | err e ↦ false
    | ok decoded ↦ text_eq decoded.to_wayfarer_id_hex wayfarer_id
  ]

  -- The loop over `item_ids`.
  unfoldable pub advertisable : Text → List (Text × StoredItemRecord) → List Text → List Text
  unfolding is_for lookup
  advertisable wayfarer_id existing [] = []
  advertisable wayfarer_id existing (item_id ∷ item_ids) =
      let rest = advertisable wayfarer_id existing item_ids in
      elim (lookup item_id existing) [
        | none ↦ rest
        | some stored ↦ if is_for wayfarer_id stored.envelope_b64 then rest else item_id ∷ rest
      ]

  unfoldable pub filter_non_self_advertisable_item_ids : Table → List Text → List Text
  unfolding advertisable get_existing_items_for_ids
  filter_non_self_advertisable_item_ids table item_ids = elim local_wayfarer_id [
    | none ↦ item_ids
    | some wayfarer_id ↦
        advertisable wayfarer_id (get_existing_items_for_ids table item_ids) item_ids
  ]

  unfoldable pub eligible_item_ids : Table → ℕ → Table × List Text
  unfolding filter_non_self_advertisable_item_ids Select.eligible_item_ids
  eligible_item_ids table now_ms =
      let candidate = Select.eligible_item_ids table now_ms in
      (candidate.0, filter_non_self_advertisable_item_ids candidate.0 candidate.1)

  unfoldable pub eligible_relay_ingest_item_ids : Table → ℕ → ℕ → Table × List Text
  unfolding filter_non_self_advertisable_item_ids Select.eligible_relay_ingest_item_ids
      sort_by_decoded
  eligible_relay_ingest_item_ids table now_ms max_items =
      let selected = Select.eligible_relay_ingest_item_ids table now_ms max_items in
      (selected.0, sort_by_decoded (filter_non_self_advertisable_item_ids selected.0 selected.1))

  -- AETHOS_RELAY_INGEST_MAX_ITEMS, where it is a number, clamped; else the default.
  unfoldable pub relay_ingest_max_items : Option ℕ → ℕ
  relay_ingest_max_items none = max_want_items
  relay_ingest_max_items (some value) = min (max value 16) max_want_items

  unfoldable pub build_relay_ingest_frame :
      Table → ℕ → Option ℕ → Table × Result Text GossipSyncFrame
  unfolding eligible_relay_ingest_item_ids relay_ingest_max_items validate_frame
  build_relay_ingest_frame table now_ms configured =
      let selected =
        eligible_relay_ingest_item_ids table now_ms (relay_ingest_max_items configured) in
      let frame = relay_ingest (record { item_ids = selected.1 }) in
      (selected.0, validate_frame crates.sha256 crates.base64_decode frame >>= λ _. ok frame)

  unfoldable pub build_hello_frame : Text → Text → Result Text GossipSyncFrame
  unfolding validate_frame
  build_hello_frame node_id node_pubkey_b64url =
      let frame = hello (record {
        version = gossip_version;
        node_id = node_id;
        node_pubkey = node_pubkey_b64url;
        capabilities = codes "relay_ingest" ∷ [];
        propagation_class = codes "interactive";
        max_want = max_want_items;
        max_transfer = max_transfer_items;
      }) in
      validate_frame crates.sha256 crates.base64_decode frame >>= λ _. ok frame

  -- The comparison of `build_summary_preview_item_ids`.
  unfoldable pub previews_first : StoredItemRecord → StoredItemRecord → Bool
  unfolding decoded_key
  previews_first =
      then_by nat_ord (λ item. item.hop_count)
        (then_by nat_ord (λ item. length item.envelope_b64)
          (then_by (dual nat_ord) (λ item. item.recorded_at_unix_ms)
            (λ left right. text_ord.before (decoded_key left.item_id) (decoded_key right.item_id))))

  -- `local_wayfarer_id` as the filter of the preview takes it.
  unfoldable pub is_previewed : StoredItemRecord → Bool
  unfolding is_for
  is_previewed item = elim local_wayfarer_id [
    | none ↦ true
    | some wayfarer_id ↦ not (is_for wayfarer_id item.envelope_b64)
  ]

  unfoldable pub build_summary_preview_item_ids : Table → ℕ → Table × List Text
  unfolding is_previewed previews_first summary_preview_candidates sort_by sort_by_decoded dedup
  build_summary_preview_item_ids table now_ms =
      let candidates = summary_preview_candidates table now_ms in
      let ranked = sort_by previews_first (filter is_previewed candidates.1) in
      (
        candidates.0,
        dedup
            (sort_by_decoded (take max_summary_preview_items (map (λ item. item.item_id) ranked))),
      )

  -- `(!preview_item_ids.is_empty()).then_some(preview_item_ids)`
  abbrev pub if_any : List Text → Option (List Text)
  if_any [] = none
  if_any (x ∷ xs) = some (x ∷ xs)

  unfoldable pub build_summary_frame : Table → ℕ → Table × Result Text GossipSyncFrame
  unfolding eligible_item_ids build_bloom_filter build_summary_preview_item_ids validate_frame
  build_summary_frame table now_ms =
      let eligible = eligible_item_ids table now_ms in
      elim (build_bloom_filter crates.sha256 eligible.1) [
        | err e ↦ (eligible.0, err e)
        | ok bloom_filter ↦
            let preview = build_summary_preview_item_ids eligible.0 now_ms in
            let frame = summary (record {
              bloom_filter = bloom_filter;
              item_count = length eligible.1;
              preview_item_ids = if_any preview.1;
              preview_cursor = last preview.1;
            }) in
            (preview.0, validate_frame crates.sha256 crates.base64_decode frame >>= λ _. ok frame)
      ]

  -- `now + CLOCK_SKEW_TOLERANCE_MS` is below 2 ^ 64.
  unfoldable pub record_local_payload : Table → ℕ → Text → ℕ → Table × Result Text Text
  unfolding record_local_item bytes_to_hex_lower contains_byte
  record_local_payload table now payload_b64 expiry_unix_ms =
      elim (crates.base64_decode payload_b64) [
        | none ↦ (table, err (message "invalid payload_b64 format for gossip storage"))
        | some raw ↦
            let item_id = bytes_to_hex_lower (crates.sha256 raw) in
            let recorded = record_local_item table item_id payload_b64 expiry_unix_ms 0 now in
            if contains_byte b'=' payload_b64
            then (table, err (message "invalid payload_b64 format for gossip storage"))
            else if leb expiry_unix_ms (now + clock_skew_tolerance_ms)
            then (table, err (message "cannot store already-expired object"))
            else (recorded.0, recorded.1 >>= λ outcome. ok item_id)
      ]
