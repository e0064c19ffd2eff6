-- ===== src/Gossip/Import.antt =====
-- `import_transfer_items` of src/aethos_core/gossip_sync.rs: which of the objects of a TRANSFER
-- frame are accepted, which are written to the store, and which are messages for this node. The
-- store's table is state that is passed on. `now_ms + CLOCK_SKEW_TOLERANCE_MS` is below 2 ^ 64.
pub mod Loop
pub mod Pending
pub mod Stored
pub mod Forgets
pub mod Examples
use aethos_linux.Base.{
  ℕ, ◌+◌, ◌/◌, Bool, not, List, [], ◌∷◌, ◌++◌, Option, none, some, ltb, leb, if◌then◌else◌, map,
}
use aethos_linux.Base.Int.{ℤ, as_i64}
use aethos_linux.Base.Text.{Text, message, text_eq}
use aethos_linux.Base.Result.{Result, ok, err, ◌>>=◌, ◌>>◌}
use aethos_linux.Base.Assoc.{lookup, insert}
use aethos_linux.Store.Types.{StoredItemRecord, ImportWriteObject, Table, clock_skew_tolerance_ms}
use aethos_linux.Store.{insert_import_items}
use aethos_linux.Store.Select.{get_existing_items_for_ids}
use aethos_linux.Envelope.Build.{Crates}
use aethos_linux.Envelope.Decode.{
  DecodedEnvelopeV1, decode_envelope_payload_b64, decode_envelope_payload_text_preview,
}
use aethos_linux.Gossip.Types.{TransferObject}
use aethos_linux.Gossip.Validate.{validate_transfer_object}

pub record RejectedItem : Type 0 where
  pub item_id : Text
  pub code : Text
  pub reason : Text

pub record ImportedEnvelope : Type 0 where
  pub item_id : Text
  pub author_wayfarer_id : Option Text
  pub transport_peer : Option Text
  pub session_peer : Option Text
  pub body_bytes : Text
  pub text : Text
  pub received_at_unix : ℤ
  pub manifest_id_hex : Option Text

pub record ImportTransferResult : Type 0 where
  pub accepted_item_ids : List Text
  pub rejected_items : List RejectedItem
  pub new_messages : List ImportedEnvelope

-- The variables of the loop.
pub record ImportState : Type 0 where
  pub accepted_item_ids : List Text
  pub rejected_items : List RejectedItem
  pub new_messages : List ImportedEnvelope
  pub pending_new_records : List (Text × ImportWriteObject)
  pub pending_new_inserts : List ImportWriteObject

abbrev pub initial : ImportState
initial = record {
  accepted_item_ids = [];
  rejected_items = [];
  new_messages = [];
  pending_new_records = [];
  pending_new_inserts = [];
}

unfoldable pub reject : ImportState → TransferObject → Text → Text → ImportState
reject state object code reason = record state {
  rejected_items =
      state.rejected_items
      ++ record { item_id = object.item_id; code = code; reason = reason } ∷ [];
}

unfoldable pub accept : ImportState → TransferObject → ImportState
accept state object = record state {
  accepted_item_ids = state.accepted_item_ids ++ object.item_id ∷ [];
}

-- The fields of a pending insert as a record of the store.
abbrev pub pending_record : ImportWriteObject → StoredItemRecord
pending_record pending = record {
  item_id = pending.item_id;
  envelope_b64 = pending.envelope_b64;
  expiry_unix_ms = pending.expiry_unix_ms;
  hop_count = pending.hop_count;
  recorded_at_unix_ms = pending.recorded_at_unix_ms;
}

-- `existing_item`
unfoldable pub existing_item :
    List (Text × ImportWriteObject)
    → List (Text × StoredItemRecord)
    → Text
    → Option StoredItemRecord
unfolding lookup
existing_item pending existing item_id = elim (lookup item_id pending) [
  | some write ↦ some (pending_record write)
  | none ↦ lookup item_id existing
]

-- The arms of the match on an item that is known.
unfoldable pub import_known : ImportState → TransferObject → StoredItemRecord → ImportState
unfolding reject accept text_eq
import_known state object existing_item =
    if not (text_eq existing_item.envelope_b64 object.envelope_b64)
    then reject state object (message "ITEM_ID_MISMATCH")
        (message "existing item_id maps to different envelope bytes")
    else if ltb object.hop_count existing_item.hop_count
    then reject state object (message "HOP_REGRESSION")
        (message "incoming hop_count regressed for known item")
    else accept state object

abbrev unwrap_or_default : Result Text Text → Text
unwrap_or_default (ok text) = text
unwrap_or_default (err e) = []

module _ (crates : Crates) (local_wayfarer_id : Text) (transport_peer session_peer : Option Text)
    (now_ms : ℕ) where
  abbrev pub write_of : TransferObject → ImportWriteObject
  write_of object = record {
    item_id = object.item_id;
    envelope_b64 = object.envelope_b64;
    expiry_unix_ms = object.expiry_unix_ms;
    hop_count = object.hop_count;
    recorded_at_unix_ms = now_ms;
  }

  unfoldable pub imported_envelope : TransferObject → DecodedEnvelopeV1 → ImportedEnvelope
  unfolding decode_envelope_payload_text_preview
  imported_envelope object parsed = record {
    item_id = object.item_id;
    author_wayfarer_id = some parsed.author_wayfarer_id_hex;
    transport_peer = transport_peer;
    session_peer = session_peer;
    body_bytes = parsed.body;
    text = unwrap_or_default (decode_envelope_payload_text_preview crates object.envelope_b64);
    received_at_unix = as_i64 (now_ms / 1000);
    manifest_id_hex = some parsed.manifest_id_hex;
  }

  -- The arm of the match on an item that is not known.
  unfoldable pub import_new : ImportState → TransferObject → DecodedEnvelopeV1 → ImportState
  unfolding accept imported_envelope insert text_eq
  import_new state object parsed =
      let accepted = accept state object in
      record accepted {
        pending_new_records = insert object.item_id (write_of object) state.pending_new_records;
        pending_new_inserts = state.pending_new_inserts ++ write_of object ∷ [];
        new_messages =
            if text_eq parsed.to_wayfarer_id_hex local_wayfarer_id
            then state.new_messages ++ imported_envelope object parsed ∷ []
            else state.new_messages;
      }

  -- `parsed`
  unfoldable pub parse_object : TransferObject → Result Text DecodedEnvelopeV1
  unfolding validate_transfer_object decode_envelope_payload_b64
  parse_object object = do
    validate_transfer_object crates.sha256 crates.base64_decode object
    decode_envelope_payload_b64 crates object.envelope_b64

  abbrev pub is_expired : TransferObject → Bool
  is_expired object = leb object.expiry_unix_ms (now_ms + clock_skew_tolerance_ms)

  unfoldable pub import_parsed :
      List (Text × StoredItemRecord)
      → ImportState
      → TransferObject
      → DecodedEnvelopeV1
      → ImportState
  unfolding reject existing_item import_known import_new
  import_parsed existing state object parsed =
      if is_expired object
      then reject state object (message "EXPIRED") (message "object is expired by local clock")
      else elim (existing_item state.pending_new_records existing object.item_id) [
        | some known ↦ import_known state object known
        | none ↦ import_new state object parsed
      ]

  -- One round of the loop.
  unfoldable pub import_object :
      List (Text × StoredItemRecord) → ImportState → TransferObject → ImportState
  unfolding reject parse_object import_parsed
  import_object existing state object = elim (parse_object object) [
    | err reason ↦ reject state object (message "MALFORMED_OBJECT") reason
    | ok parsed ↦ import_parsed existing state object parsed
  ]

  unfoldable pub import_objects :
      List (Text × StoredItemRecord) → ImportState → List TransferObject → ImportState
  unfolding import_object
  import_objects existing state [] = state
  import_objects existing state (object ∷ objects) =
      import_objects existing (import_object existing state object) objects

  -- The variables after the loop.
  unfoldable pub final_state : Table → List TransferObject → ImportState
  unfolding import_objects get_existing_items_for_ids
  final_state table objects =
      import_objects (get_existing_items_for_ids table (map (λ object. object.item_id) objects))
        initial objects

  unfoldable pub import_transfer_items : Table → List TransferObject → Table × ImportTransferResult
  unfolding final_state insert_import_items
  import_transfer_items table objects =
      let state = final_state table objects in
      (
        insert_import_items table state.pending_new_inserts now_ms,
        record {
          accepted_item_ids = state.accepted_item_ids;
          rejected_items = state.rejected_items;
          new_messages = state.new_messages;
        },
      )
