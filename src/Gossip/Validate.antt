-- ===== src/Gossip/Validate.antt =====
-- `validate_frame` and what it calls. SHA-256 and the decoder of unpadded base64url are parameters;
-- an error is its text.
pub mod Accepts
pub mod Transfer
use aethos_linux.Base.{
  ℕ, ◌+◌, Bool, true, false, not, ◌||◌, List, [], ◌∷◌, ◌++◌, Option, none, some, ltb, ◌==◌,
  if◌then◌else◌, length, saturating_add,
}
use aethos_linux.Base.Text.{Text, codes, message, contains, text_eq, text_lt}
use aethos_linux.Base.Result.{Result, ok, err, ◌>>=◌, ◌>>◌, refuse_if}
use aethos_linux.Hex.{is_valid_item_id, decode_item_id, bytes_to_hex_lower}
use aethos_linux.Gossip.Types.{
  HelloFrame, SummaryFrame, RequestFrame, TransferObject, TransferFrame, ReceiptFrame,
  RelayIngestFrame, GossipSyncFrame, hello, summary, request, transfer, receipt, relay_ingest,
  gossip_version, max_want_items, max_transfer_items, max_transfer_bytes, bloom_filter_bytes,
  max_summary_preview_items,
}

-- The loop of `validate_unique_item_ids`: `unique` is the set of the identifiers met so far.
unfoldable pub unique_from : Text → List Text → List Text → Result Text (Unit {0})
unique_from label unique [] = ok tt
unique_from label unique (item_id ∷ item_ids) = do
  refuse_if (not (is_valid_item_id item_id)) (label ++ message " has malformed item_id")
  refuse_if (contains unique item_id) (label ++ message " contains duplicate item_id")
  unique_from label (item_id ∷ unique) item_ids

unfoldable pub validate_unique_item_ids : List Text → Text → Result Text (Unit {0})
unfolding unique_from
validate_unique_item_ids item_ids label = unique_from label [] item_ids

-- `if let Some(ref p) = prev { decoded < *p }`
unfoldable pub is_below : Option Text → Text → Bool
is_below none decoded = false
is_below (some p) decoded = text_lt decoded p

-- The loop of `validate_sorted_unique_item_ids`.
unfoldable pub sorted_from : Text → Option Text → List Text → Result Text (Unit {0})
unfolding is_below
sorted_from label prev [] = ok tt
sorted_from label prev (item_id ∷ item_ids) = do
  decoded ← decode_item_id item_id
  refuse_if (is_below prev decoded) (label ++ message " must be bytewise lexicographically sorted")
  sorted_from label (some decoded) item_ids

unfoldable pub validate_sorted_unique_item_ids : List Text → Text → Result Text (Unit {0})
unfolding validate_unique_item_ids sorted_from
validate_sorted_unique_item_ids item_ids label = do
  validate_unique_item_ids item_ids label
  sorted_from label none item_ids

abbrev pub last : List Text → Option Text
last [] = none
last (x ∷ []) = some x
last (x ∷ y ∷ xs) = last (y ∷ xs)

-- `last() != Some(cursor)`
unfoldable pub is_last : List Text → Text → Bool
is_last item_ids cursor = elim (last item_ids) [ none ↦ false | some x ↦ text_eq x cursor ]

unfoldable pub validate_cursor : Option (List Text) → Text → Result Text (Unit {0})
unfolding is_last
validate_cursor none cursor =
    err (message "SUMMARY preview_cursor must be absent when preview_item_ids is absent")
validate_cursor (some []) cursor =
    err (message "SUMMARY preview_cursor must be absent when preview_item_ids is empty")
validate_cursor (some (x ∷ xs)) cursor =
    refuse_if (not (is_last (x ∷ xs) cursor))
      (message "SUMMARY preview_cursor must equal last preview_item_ids element")

unfoldable pub validate_preview : Option (List Text) → Result Text (Unit {0})
unfolding validate_sorted_unique_item_ids
validate_preview none = ok tt
validate_preview (some preview_item_ids) = do
  refuse_if (ltb max_summary_preview_items (length preview_item_ids))
      (message "SUMMARY preview_item_ids exceeds MAX_SUMMARY_PREVIEW_ITEMS")
  validate_sorted_unique_item_ids preview_item_ids (message "SUMMARY.preview_item_ids")

unfoldable pub validate_preview_cursor : Option Text → Option (List Text) → Result Text (Unit {0})
unfolding validate_cursor
validate_preview_cursor none preview_item_ids = ok tt
validate_preview_cursor (some preview_cursor) preview_item_ids = do
  refuse_if (not (is_valid_item_id preview_cursor))
      (message "SUMMARY preview_cursor format invalid")
  validate_cursor preview_item_ids preview_cursor

unfoldable pub validate_summary : SummaryFrame → Result Text (Unit {0})
unfolding validate_preview validate_preview_cursor
validate_summary frame = do
  refuse_if (not (length frame.bloom_filter == bloom_filter_bytes))
      (message "SUMMARY bloom_filter length mismatch")
  validate_preview frame.preview_item_ids
  validate_preview_cursor frame.preview_cursor frame.preview_item_ids

unfoldable pub validate_request : RequestFrame → Result Text (Unit {0})
unfolding validate_sorted_unique_item_ids
validate_request frame = do
  refuse_if (ltb max_want_items (length frame.want)) (message "REQUEST want exceeds MAX_WANT_ITEMS")
  validate_sorted_unique_item_ids frame.want (message "REQUEST.want")

-- `str::contains` of one byte.
unfoldable pub contains_byte : ℕ → Text → Bool
contains_byte byte [] = false
contains_byte byte (b ∷ bytes) = b == byte || contains_byte byte bytes

module _ (sha256 : Text → Text) (base64_decode : Text → Option Text) where
  unfoldable pub validate_pubkey : HelloFrame → Result Text (Unit {0})
  validate_pubkey frame = elim (base64_decode frame.node_pubkey) [
    | none ↦ err (message "HELLO node_pubkey decode failed")
    | some pubkey ↦
        refuse_if (not (text_eq (bytes_to_hex_lower (sha256 pubkey)) frame.node_id))
          (message "HELLO node_id does not match SHA-256(node_pubkey)")
  ]

  unfoldable pub validate_hello : HelloFrame → Result Text (Unit {0})
  unfolding validate_pubkey
  validate_hello frame = do
    refuse_if (not (frame.version == gossip_version)) (message "HELLO version mismatch")
    refuse_if (not (is_valid_item_id frame.node_id)) (message "HELLO node_id format invalid")
    validate_pubkey frame
    refuse_if (frame.max_want == 0 || ltb max_want_items frame.max_want)
        (message "HELLO max_want out of range")
    refuse_if (frame.max_transfer == 0 || ltb max_transfer_items frame.max_transfer)
        (message "HELLO max_transfer out of range")

  -- The loop of `validate_transfer`.
  unfoldable pub transfer_from : ℕ → List TransferObject → Result Text (Unit {0})
  transfer_from total_bytes [] = ok tt
  transfer_from total_bytes (object ∷ objects) = elim (base64_decode object.envelope_b64) [
    | none ↦ transfer_from total_bytes objects
    | some raw ↦
        let total = saturating_add total_bytes (length raw) in
        let rest = transfer_from total objects in
        if ltb max_transfer_bytes total
        then err (message "TRANSFER decoded payload exceeds MAX_TRANSFER_BYTES")
        else rest
  ]

  unfoldable pub validate_transfer : TransferFrame → Result Text (Unit {0})
  unfolding transfer_from
  validate_transfer frame = do
    refuse_if (ltb max_transfer_items (length frame.objects))
        (message "TRANSFER objects exceeds MAX_TRANSFER_ITEMS")
    transfer_from 0 frame.objects

  unfoldable pub validate_object_bytes : TransferObject → Option Text → Result Text (Unit {0})
  validate_object_bytes object none = err (message "TRANSFER object.envelope_b64 format invalid")
  validate_object_bytes object (some raw) =
      refuse_if (not (text_eq (bytes_to_hex_lower (sha256 raw)) object.item_id))
        (message "TRANSFER object.item_id mismatch with envelope bytes")

  -- `is_valid_payload_b64` holds where no `=` occurs and the decoder succeeds.
  unfoldable pub validate_transfer_object : TransferObject → Result Text (Unit {0})
  unfolding validate_object_bytes contains_byte
  validate_transfer_object object = do
    refuse_if (not (is_valid_item_id object.item_id))
        (message "TRANSFER object.item_id format invalid")
    refuse_if (contains_byte b'=' object.envelope_b64)
        (message "TRANSFER object.envelope_b64 format invalid")
    validate_object_bytes object (base64_decode object.envelope_b64)

  unfoldable pub validate_frame : GossipSyncFrame → Result Text (Unit {0})
  unfolding validate_hello validate_summary validate_request validate_transfer
      validate_unique_item_ids
  validate_frame (hello frame) = validate_hello frame
  validate_frame (summary frame) = validate_summary frame
  validate_frame (request frame) = validate_request frame
  validate_frame (transfer frame) = validate_transfer frame
  validate_frame (receipt frame) =
      validate_unique_item_ids frame.received (message "RECEIPT.received")
  validate_frame (relay_ingest frame) =
      validate_unique_item_ids frame.item_ids (message "RELAY_INGEST.item_ids")
