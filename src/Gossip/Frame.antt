-- ===== src/Gossip/Frame.antt =====
-- How a gossip frame is written and read, src/aethos_core/gossip_sync.rs. The derived serializers of
-- the payloads are parameters: the value that a payload is written as, and the reader of each
-- payload from bytes. Whether a frame has to be canonical, which the source reads from the
-- environment, is an argument.
pub mod RoundTrip
mod Examples
use aethos_linux.Base.{
  ℕ, Bool, true, false, not, ◌&&◌, ◌||◌, ◌≡◌, ◌≤◌, refl, inl, inr, [], ◌∷◌, ◌++◌, Option, none,
  some, ◌==◌, ltb, if◌then◌else◌, length, arith,
}
use aethos_linux.Base.Text.{Text, codes, message, text_eq}
use aethos_linux.Base.Result.{Result, ok, err, ◌>>=◌, ◌>>◌, refuse_if, map_err, >>=-eq-ok}
use aethos_linux.Envelope.Cbor.{
  Value, Entries, text, map_value, no_entries, entry_first, entries_of,
  encode_cbor_value_deterministic, decode_cbor_value_exact, to_cbor_value,
}
use aethos_linux.Envelope.Build.{Crates}
use aethos_linux.Relay.Frame.{max_frame_bytes}
use aethos_linux.Gossip.Types.{
  HelloFrame, SummaryFrame, RequestFrame, TransferFrame, ReceiptFrame, RelayIngestFrame,
  GossipSyncFrame, hello, summary, request, transfer, receipt, relay_ingest,
}
use aethos_linux.Gossip.Validate.{validate_frame}

-- What `serde` derives for the payloads.
pub record Payloads : Type 0 where
  pub value_of : GossipSyncFrame → Value
  pub read_hello : Text → Result Text HelloFrame
  pub read_summary : Text → Result Text SummaryFrame
  pub read_request : Text → Result Text RequestFrame
  pub read_transfer : Text → Result Text TransferFrame
  pub read_receipt : Text → Result Text ReceiptFrame
  pub read_relay_ingest : Text → Result Text RelayIngestFrame

unfoldable starts_with : Text → Text → Bool
starts_with [] haystack = true
starts_with (x ∷ needle) [] = false
starts_with (x ∷ needle) (y ∷ haystack) = x == y && starts_with needle haystack

-- `haystack.contains(needle)`
unfoldable contains_text : Text → Text → Bool
unfolding starts_with
contains_text needle [] = starts_with needle []
contains_text needle (y ∷ haystack) =
    starts_with needle (y ∷ haystack) || contains_text needle haystack

unfoldable pub classify_frame_parse_error : Text → Text
unfolding contains_text
classify_frame_parse_error parse_error =
    if contains_text (codes "unknown field `accepted`") parse_error
      && contains_text (codes "received") parse_error
    then message
        "protocol violation: RECEIPT payload used non-spec field `accepted`; expected `received`"
    else message "parse gossip frame cbor: " ++ parse_error

unfoldable pub frame_type_of : GossipSyncFrame → Text
frame_type_of (hello frame) = codes "HELLO"
frame_type_of (summary frame) = codes "SUMMARY"
frame_type_of (request frame) = codes "REQUEST"
frame_type_of (transfer frame) = codes "TRANSFER"
frame_type_of (receipt frame) = codes "RECEIPT"
frame_type_of (relay_ingest frame) = codes "RELAY_INGEST"

-- The variables of the loop of `frame_from_envelope_value`.
pub record EnvelopeKeys : Type 0 where
  pub frame_type : Option Text
  pub payload : Option Value

unfoldable type_key : EnvelopeKeys → Value → Result Text EnvelopeKeys
type_key keys (text type_text) = ok (record keys { frame_type = some type_text })
type_key keys value = err (message "parse gossip frame cbor: envelope.type must be text")

-- One round of the loop; a key that is not a text or is not known is passed over.
unfoldable pub envelope_key : EnvelopeKeys → Value → Value → Result Text EnvelopeKeys
unfolding type_key text_eq
envelope_key keys (text key_text) value =
    if text_eq key_text (codes "type")
    then type_key keys value
    else if text_eq key_text (codes "payload")
    then ok (record keys { payload = some value })
    else ok keys
envelope_key keys _ value = ok keys

unfoldable pub envelope_keys : EnvelopeKeys → Entries → Result Text EnvelopeKeys
unfolding envelope_key
envelope_keys keys no_entries = ok keys
envelope_keys keys (entry_first key value entries) = do
  next ← envelope_key keys key value
  envelope_keys next entries

abbrev ok_or : {A : Type 0} → Option A → Text → Result Text A
ok_or (some a) e = ok a
ok_or none e = err e

abbrev envelope_entries : Value → Result Text Entries
envelope_entries (map_value entries) = ok entries
envelope_entries value = err (message "parse gossip frame cbor: envelope must be map")

module _ (crates : Crates) (payloads : Payloads) where
  unfoldable pub frame_type_and_payload : GossipSyncFrame → Result Text (Text × Value)
  unfolding to_cbor_value frame_type_of
  frame_type_and_payload frame = do
    payload ← to_cbor_value crates.into_writer crates.from_reader (payloads.value_of frame)
    ok (frame_type_of frame, payload)

  unfoldable pub serialize_frame : GossipSyncFrame → Result Text Text
  unfolding frame_type_and_payload encode_cbor_value_deterministic
  serialize_frame frame = do
    typed ← frame_type_and_payload frame
    raw ←
        map_err (λ e. message "serialize gossip frame: " ++ e)
          (encode_cbor_value_deterministic crates.into_writer crates.from_reader (
            map_value (
              entries_of
                ((text (codes "type"), text typed.0) ∷ (text (codes "payload"), typed.1) ∷ []))))
    refuse_if (ltb max_frame_bytes (length raw)) (message "frame exceeds MAX_FRAME_BYTES")
    ok raw

  unfoldable pub decode_payload_frame :
      {A : Type 0}
      → (Text → Result Text A)
      → (A → GossipSyncFrame)
      → Value
      → Result Text GossipSyncFrame
  decode_payload_frame read wrap payload = do
    raw ← map_err (λ e. message "payload re-encode failed: " ++ e) (crates.into_writer payload)
    payload_value ← map_err (λ e. message "payload decode failed: " ++ e) (read raw)
    ok (wrap payload_value)

  -- The match on the type.
  unfoldable pub frame_of : Text → Value → Result Text GossipSyncFrame
  unfolding decode_payload_frame text_eq
  frame_of frame_type payload =
      if text_eq frame_type (codes "HELLO")
      then decode_payload_frame payloads.read_hello hello payload
      else if text_eq frame_type (codes "SUMMARY")
      then decode_payload_frame payloads.read_summary summary payload
      else if text_eq frame_type (codes "REQUEST")
      then decode_payload_frame payloads.read_request request payload
      else if text_eq frame_type (codes "TRANSFER")
      then decode_payload_frame payloads.read_transfer transfer payload
      else if text_eq frame_type (codes "RECEIPT")
      then decode_payload_frame payloads.read_receipt receipt payload
      else if text_eq frame_type (codes "RELAY_INGEST")
      then decode_payload_frame payloads.read_relay_ingest relay_ingest payload
      else err
          (message "parse gossip frame cbor: unsupported frame type `" ++ frame_type ++ message "`")

  unfoldable pub frame_from_envelope_value : Value → Result Text GossipSyncFrame
  unfolding envelope_keys frame_of
  frame_from_envelope_value envelope = do
    entries ← envelope_entries envelope
    keys ← envelope_keys (record { frame_type = none; payload = none }) entries
    frame_type ←
        ok_or keys.frame_type
          (message "parse gossip frame cbor: envelope missing required key `type`")
    payload ←
        ok_or keys.payload
          (message "parse gossip frame cbor: envelope missing required key `payload`")
    frame_of frame_type payload

  -- The check of the canonical form, where it is required.
  unfoldable pub require_canonical : Bool → Text → Value → Result Text (Unit {0})
  unfolding encode_cbor_value_deterministic classify_frame_parse_error text_eq
  require_canonical false raw envelope = ok tt
  require_canonical true raw envelope = do
    canonical ←
        map_err (λ e. classify_frame_parse_error (message "canonical frame encode failed: " ++ e))
          (encode_cbor_value_deterministic crates.into_writer crates.from_reader envelope)
    refuse_if (not (text_eq canonical raw))
        (message "parse gossip frame cbor: frame is not deterministic canonical CBOR")

  unfoldable pub parse_frame : Bool → Text → Result Text GossipSyncFrame
  unfolding decode_cbor_value_exact require_canonical frame_from_envelope_value validate_frame
      classify_frame_parse_error
  parse_frame canonical_required raw = do
    refuse_if (ltb max_frame_bytes (length raw)) (message "frame exceeds MAX_FRAME_BYTES")
    envelope ←
        map_err classify_frame_parse_error (
          decode_cbor_value_exact crates.into_writer crates.from_reader raw
            (message "gossip frame"))
    require_canonical canonical_required raw envelope
    frame ← map_err classify_frame_parse_error (frame_from_envelope_value envelope)
    validate_frame crates.sha256 crates.base64_decode frame
    ok frame
