-- ===== src/Gossip/Frame/RoundTrip.antt =====
-- A gossip frame that is written and then parsed. The hypotheses say of the CBOR crate that it reads
-- back what it wrote of this frame, and of the derived serializers that the payload's canonical form
-- is read as the frame.
use aethos_linux.Base.{◌+◌, ◌<◌, ◌≤◌, ◌≡◌, refl, Bool, true, false, [], ◌∷◌, ltb, length, arith}
use aethos_linux.Base.Sort.{sort_by, insert_by}
use aethos_linux.Base.Text.{Text, codes, text_eq, text_eq_refl, text_lt}
use aethos_linux.Base.Result.{Result, ok, err, ◌>>=◌, map_err}
use aethos_linux.Envelope.Cbor.{
  Value, text, map_value, entries_of, encoded_before, encode_cbor_value_raw, encode_keys,
  sort_entries, canonicalize_cbor_value, encode_cbor_value_deterministic, decode_cbor_value_exact,
  to_cbor_value,
}
use aethos_linux.Envelope.Build.{Crates}
use aethos_linux.Envelope.Canonical.{==_refl}
use aethos_linux.Envelope.Idempotent.{canonicalize-IsCanonical}
use aethos_linux.Relay.Frame.{max_frame_bytes}
use aethos_linux.Gossip.Types.{
  GossipSyncFrame, hello, summary, request, transfer, receipt, relay_ingest,
}
use aethos_linux.Gossip.Validate.{validate_frame}
use aethos_linux.Gossip.Frame.{
  Payloads, frame_type_of, envelope_key, envelope_keys, frame_type_and_payload, serialize_frame,
  decode_payload_frame, frame_of, frame_from_envelope_value, require_canonical, parse_frame,
}

-- The payload's bytes read by the reader of the frame's type.
abbrev pub read_as : Payloads → GossipSyncFrame → Text → Result Text GossipSyncFrame
read_as payloads (hello frame) raw = payloads.read_hello raw >>= λ f. ok (hello f)
read_as payloads (summary frame) raw = payloads.read_summary raw >>= λ f. ok (summary f)
read_as payloads (request frame) raw = payloads.read_request raw >>= λ f. ok (request f)
read_as payloads (transfer frame) raw = payloads.read_transfer raw >>= λ f. ok (transfer f)
read_as payloads (receipt frame) raw = payloads.read_receipt raw >>= λ f. ok (receipt f)
read_as payloads (relay_ingest frame) raw =
    payloads.read_relay_ingest raw >>= λ f. ok (relay_ingest f)

-- The value that a frame is written as.
abbrev pub envelope_of : GossipSyncFrame → Value → Value
envelope_of frame payload = map_value (
    entries_of
      ((text (codes "type"), text (frame_type_of frame)) ∷ (text (codes "payload"), payload) ∷ []))

map_err-ok :
    {E F A B : Type 0} (f : E → F) (r : Result E A) (wrap : A → B) (b : B)
    → (r >>= λ a. ok (wrap a)) ≡ ok b
    → (map_err f r >>= λ a. ok (wrap a)) ≡ ok b
map_err-ok f (ok a) wrap b h = cc
map_err-ok f (err e) wrap b h = cc

module _ (crates : Crates) (payloads : Payloads) (canonical : Value) (payload_raw : Text) where
  decode_payload_frame-written :
      {A : Type 0} (frame : GossipSyncFrame) (read : Text → Result Text A)
      (wrap : A → GossipSyncFrame)
      → crates.into_writer canonical ≡ ok payload_raw
      → (read payload_raw >>= λ f. ok (wrap f)) ≡ ok frame
      → decode_payload_frame crates payloads read wrap canonical ≡ ok frame
  unfolding decode_payload_frame
  decode_payload_frame-written frame read wrap h good =
      rw (h, decode_payload_frame) (map_err-ok _ (read payload_raw) wrap frame good)

  frame_of-written :
      (frame : GossipSyncFrame)
      → crates.into_writer canonical ≡ ok payload_raw
      → read_as payloads frame payload_raw ≡ ok frame
      → frame_of crates payloads (frame_type_of frame) canonical ≡ ok frame
  unfolding frame_of frame_type_of text_eq
  frame_of-written (hello f) h good =
      decode_payload_frame-written (hello f) payloads.read_hello hello h good
  frame_of-written (summary f) h good =
      decode_payload_frame-written (summary f) payloads.read_summary summary h good
  frame_of-written (request f) h good =
      decode_payload_frame-written (request f) payloads.read_request request h good
  frame_of-written (transfer f) h good =
      decode_payload_frame-written (transfer f) payloads.read_transfer transfer h good
  frame_of-written (receipt f) h good =
      decode_payload_frame-written (receipt f) payloads.read_receipt receipt h good
  frame_of-written (relay_ingest f) h good =
      decode_payload_frame-written (relay_ingest f) payloads.read_relay_ingest relay_ingest h good

module _ (crates : Crates) (payloads : Payloads) (frame : GossipSyncFrame) (canonical : Value)
    (written payload_raw raw : Text) where
  encode-envelope :
      (payload : Value)
      → ((key : Text)
          → length key < 24
          → crates.into_writer (text key) ≡ ok ((96 + length key) ∷ key))
      → canonicalize_cbor_value crates.into_writer crates.from_reader payload ≡ ok canonical
      → crates.into_writer (envelope_of frame canonical) ≡ ok raw
      → encode_cbor_value_deterministic crates.into_writer crates.from_reader
          (envelope_of frame payload)
        ≡ ok raw
  unfolding encode_cbor_value_deterministic canonicalize_cbor_value sort_entries encode_keys sort_by
      insert_by encoded_before text_lt encode_cbor_value_raw
  encode-envelope payload key_written canonicalizes wrote = rw canonicalizes (
      rw (key_written (codes "type") (omega arith), key_written (codes "payload") (omega arith))
        (rw wrote refl))

  -- The envelope is canonical, whether or not this is required.
  require_canonical-envelope :
      (canonical_required : Bool)
      → encode_cbor_value_deterministic crates.into_writer crates.from_reader
          (envelope_of frame canonical)
        ≡ ok raw
      → require_canonical crates payloads canonical_required raw (envelope_of frame canonical)
        ≡ ok tt
  unfolding require_canonical
  require_canonical-envelope false h = refl
  require_canonical-envelope true h = rw h (rw (text_eq_refl raw) refl)

  frame_from-envelope :
      frame_of crates payloads (frame_type_of frame) canonical ≡ ok frame
      → frame_from_envelope_value crates payloads (envelope_of frame canonical) ≡ ok frame
  unfolding frame_from_envelope_value envelope_keys envelope_key text_eq
  frame_from-envelope h = h

  -- For a CBOR crate that writes a text key shorter than 24 bytes as its length and its bytes, and
  -- reads back the payload and the envelope of a frame that it wrote, where the payload has a
  -- canonical form, which the crate writes and the reader of the frame's type reads as the frame: a
  -- valid frame that is written in no more than 1048576 bytes is serialized, and parsing the bytes
  -- gives the frame, whether or not frames have to be canonical.
  pub parse_frame-serialize_frame :
      (canonical_required : Bool)
      → ((key : Text)
          → length key < 24
          → crates.into_writer (text key) ≡ ok ((96 + length key) ∷ key))
      → crates.into_writer (payloads.value_of frame) ≡ ok written
      → crates.from_reader written ≡ ok (payloads.value_of frame, length written)
      → canonicalize_cbor_value crates.into_writer crates.from_reader (payloads.value_of frame)
        ≡ ok canonical
      → crates.into_writer canonical ≡ ok payload_raw
      → read_as payloads frame payload_raw ≡ ok frame
      → crates.into_writer (envelope_of frame canonical) ≡ ok raw
      → crates.from_reader raw ≡ ok (envelope_of frame canonical, length raw)
      → length raw ≤ max_frame_bytes
      → validate_frame crates.sha256 crates.base64_decode frame ≡ ok tt
      → (serialize_frame crates payloads frame ≡ ok raw)
        × (parse_frame crates payloads canonical_required raw ≡ ok frame)
  unfolding serialize_frame frame_type_and_payload to_cbor_value parse_frame decode_cbor_value_exact
  parse_frame-serialize_frame canonical_required key_written wrote read_back canonicalizes
        payload_wrote payload_read envelope_wrote envelope_read small valid =
      let fits : ltb max_frame_bytes (length raw) ≡ false = ground (arith, small) in
      let encodes =
        encode-envelope (payloads.value_of frame) key_written canonicalizes envelope_wrote in
      let again =
        encode-envelope canonical key_written
          (canonicalize-IsCanonical crates.into_writer crates.from_reader (payloads.value_of frame)
            canonical canonicalizes)
          envelope_wrote in
      let found =
        frame_from-envelope (
          frame_of-written crates payloads canonical payload_raw frame payload_wrote
            payload_read) in
      (
        rw wrote (rw read_back (rw encodes (rw fits refl))),
        rw fits (
            rw envelope_read (
              rw (==_refl (length raw)) (
                rw (require_canonical-envelope canonical_required again)
                  (rw found (rw valid refl))))),
      )
