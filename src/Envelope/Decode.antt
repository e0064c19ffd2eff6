-- ===== src/Envelope/Decode.antt =====
-- The envelope that arrives: `decode_envelope_payload_b64`, `parse_envelope_cbor` and the text
-- preview of src/aethos_core/protocol.rs.
use aethos_linux.Base.{
  ℕ, Bool, false, true, not, ◌&&◌, ◌||◌, List, [], ◌∷◌, ◌++◌, Option, none, some, ◌==◌, length,
  if◌then◌else◌,
}
use aethos_linux.Base.Text.{Text, codes, message, text_eq}
use aethos_linux.Base.Assoc.{lookup}
use aethos_linux.Base.Result.{Result, ok, err, ◌>>=◌, ◌>>◌, refuse_if, map_err}
use aethos_linux.Hex.{bytes_to_hex_lower}
use aethos_linux.Envelope.Cbor.{
  Value, Entries, bytes, text, integer, map_value, no_entries, entry_first,
  encode_cbor_value_deterministic, decode_cbor_value_exact,
}
use aethos_linux.Envelope.Build.{
  Crates, EnvelopeV1, build_signing_payload_v1, envelope_signing_digest_v1,
}

pub record DecodedEnvelopeV1 : Type 0 where
  pub to_wayfarer_id_hex : Text
  pub manifest_id_hex : Text
  pub author_wayfarer_id_hex : Text
  pub body : Text

-- The map of the fields; the order of its keys is not observed.
abbrev pub FieldMap : Type 0
FieldMap = List (Text × Text)

-- `field_map.insert(...).is_some()`
unfoldable pub insert_field : FieldMap → Text → Text → Result Text FieldMap
unfolding lookup
insert_field field_map key value = elim (lookup key field_map) [
  | some old ↦ err (message "envelope cbor contains duplicate keys")
  | none ↦ ok ((key, value) ∷ field_map)
]

abbrev text_key : Value → Result Text Text
text_key (text key) = ok key
text_key value = err (message "envelope cbor keys must be UTF-8 strings")

abbrev bytes_value : Value → Result Text Text
bytes_value (bytes value) = ok value
bytes_value value = err (message "envelope cbor values must be byte strings")

-- The loop over `map_entries`.
unfoldable pub collect_fields : FieldMap → Entries → Result Text FieldMap
unfolding insert_field
collect_fields field_map no_entries = ok field_map
collect_fields field_map (entry_first key value entries) = text_key key >>= λ key_text.
    bytes_value value >>= λ field.
    insert_field field_map key_text field >>= λ next. collect_fields next entries

abbrev root_map : Value → Result Text Entries
root_map (map_value entries) = ok entries
root_map value = err (message "envelope cbor root must be a map")

abbrev has : FieldMap → Text → Bool
has field_map key = elim (lookup key field_map) [ none ↦ false | some value ↦ true ]

-- `field_map.len() != expected_keys.len() || expected_keys.iter().any(...)`
unfoldable pub has_exactly_expected_keys : FieldMap → Bool
unfolding lookup
has_exactly_expected_keys field_map =
    length field_map == 5
    && has field_map (codes "to_wayfarer_id")
    && has field_map (codes "manifest_id")
    && has field_map (codes "body")
    && has field_map (codes "author_pubkey")
    && has field_map (codes "author_sig")

-- `field_map.get(key).cloned().ok_or_else(...)`
unfoldable pub field_of : FieldMap → Text → Result Text Text
unfolding lookup
field_of field_map key = elim (lookup key field_map) [
  | none ↦ err (message "missing envelope field " ++ key)
  | some value ↦ ok value
]

-- `try_into()` an array of `size` bytes.
abbrev pub fixed : ℕ → Text → Text → Result Text Text
fixed size value failed = do refuse_if (not (length value == size)) failed; ok value

-- The fields with their lengths checked.
unfoldable pub read_fields : FieldMap → Result Text EnvelopeV1
unfolding has_exactly_expected_keys field_of
read_fields field_map = do
  refuse_if (not (has_exactly_expected_keys field_map))
      (message "envelope cbor must contain exactly required keys")
  to_wayfarer_id ← field_of field_map (codes "to_wayfarer_id")
  to_wayfarer_id_arr ← fixed 32 to_wayfarer_id (message "invalid to_wayfarer_id length in envelope")
  manifest_id ← field_of field_map (codes "manifest_id")
  refuse_if (not (length manifest_id == 32)) (message "invalid manifest_id length in envelope")
  body ← field_of field_map (codes "body")
  author_pubkey ← field_of field_map (codes "author_pubkey")
  author_pubkey_arr ← fixed 32 author_pubkey (message "invalid author_pubkey length in envelope")
  author_sig ← field_of field_map (codes "author_sig")
  author_sig_arr ← fixed 64 author_sig (message "invalid author_sig length in envelope")
  ok (record {
    to_wayfarer_id = to_wayfarer_id_arr;
    manifest_id = manifest_id;
    body = body;
    author_pubkey = author_pubkey_arr;
    author_sig = author_sig_arr;
  })

-- From the decoded value to the field map.
unfoldable pub field_map_of : Value → Result Text FieldMap
unfolding collect_fields
field_map_of fields = do map_entries ← root_map fields; collect_fields [] map_entries

module _ (crates : Crates) where
  -- From the signing payload on.
  unfoldable pub verify_fields : EnvelopeV1 → Result Text DecodedEnvelopeV1
  unfolding build_signing_payload_v1 envelope_signing_digest_v1 bytes_to_hex_lower
  verify_fields envelope = do
    signing_payload ←
        build_signing_payload_v1 crates envelope.to_wayfarer_id envelope.manifest_id envelope.body
    refuse_if (not (crates.is_point envelope.author_pubkey)) (message "invalid author_pubkey")
    refuse_if
        (not (
          crates.verify envelope.author_pubkey (envelope_signing_digest_v1 crates signing_payload)
            envelope.author_sig))
        (message "invalid envelope signature")
    ok (record {
      to_wayfarer_id_hex = bytes_to_hex_lower envelope.to_wayfarer_id;
      manifest_id_hex = bytes_to_hex_lower envelope.manifest_id;
      author_wayfarer_id_hex = bytes_to_hex_lower (crates.sha256 envelope.author_pubkey);
      body = envelope.body;
    })

  -- The value that the bytes are the canonical form of.
  unfoldable pub canonical_fields : Text → Result Text Value
  unfolding decode_cbor_value_exact encode_cbor_value_deterministic text_eq
  canonical_fields raw = do
    fields ← decode_cbor_value_exact crates.into_writer crates.from_reader raw (message "envelope")
    canonical ←
        map_err (λ e. message "envelope cbor canonical re-encode failed: " ++ e)
          (encode_cbor_value_deterministic crates.into_writer crates.from_reader fields)
    refuse_if (not (text_eq canonical raw)) (message "envelope is not canonical CBOR encoding")
    ok fields

  unfoldable pub parse_envelope_cbor : Text → Result Text DecodedEnvelopeV1
  unfolding canonical_fields field_map_of read_fields verify_fields
  parse_envelope_cbor raw = do
    fields ← canonical_fields raw
    field_map ← field_map_of fields
    envelope ← read_fields field_map
    verify_fields envelope

  unfoldable pub decode_envelope_payload_b64 : Text → Result Text DecodedEnvelopeV1
  unfolding parse_envelope_cbor
  decode_envelope_payload_b64 payload_b64 = elim (crates.base64_decode payload_b64) [
    | none ↦ err (message "failed to decode payload_b64")
    | some raw ↦ parse_envelope_cbor raw
  ]

-- The variables of `extract_wayfarer_chat_text_from_cbor`.
pub record ChatFields : Type 0 where
  pub type_string : Option Text
  pub text_field : Option Text
  pub created_at_present : Bool

-- One round of its loop, on a key that is a text.
unfoldable pub chat_field : ChatFields → Text → Value → ChatFields
unfolding text_eq
chat_field fields key_text (text value) =
    if text_eq key_text (codes "type")
    then record fields { type_string = some value }
    else if text_eq key_text (codes "text") && not (text_eq value [])
    then record fields { text_field = some value }
    else fields
chat_field fields key_text (integer n) =
    if text_eq key_text (codes "created_at_unix_ms")
    then record fields { created_at_present = true }
    else fields
chat_field fields key_text value = fields

-- The loop, which gives up at a key that is not a text.
unfoldable pub chat_fields_of : ChatFields → Entries → Option ChatFields
unfolding chat_field
chat_fields_of fields no_entries = some fields
chat_fields_of fields (entry_first (text key_text) value entries) =
    chat_fields_of (chat_field fields key_text value) entries
chat_fields_of fields (entry_first _ _ _) = none

abbrev is_chat : Option Text → Bool
is_chat none = false
is_chat (some type_string) = text_eq type_string (codes "wayfarer.chat.v1")

unfoldable pub chat_text_of : Value → Option Text
unfolding chat_fields_of
chat_text_of (map_value entries) =
    elim (chat_fields_of
      (record { type_string = none; text_field = none; created_at_present = false }) entries) [
        | none ↦ none
        | some fields ↦
            if not (is_chat fields.type_string) || not fields.created_at_present
            then none
            else fields.text_field
      ]
chat_text_of value = none

module _ (crates : Crates) where
  unfoldable pub extract_wayfarer_chat_text_from_cbor : Text → Option Text
  unfolding decode_cbor_value_exact chat_text_of
  extract_wayfarer_chat_text_from_cbor body =
      elim (decode_cbor_value_exact crates.into_writer crates.from_reader body
        (message "wayfarer payload")) [ err e ↦ none | ok value ↦ chat_text_of value ]

  unfoldable pub decode_envelope_payload_text_preview : Text → Result Text Text
  unfolding decode_envelope_payload_b64 extract_wayfarer_chat_text_from_cbor
  decode_envelope_payload_text_preview payload_b64 = do
    decoded ← decode_envelope_payload_b64 crates payload_b64
    elim (extract_wayfarer_chat_text_from_cbor decoded.body) [
      | none ↦ err (message "payload is not a valid wayfarer.chat.v1 message")
      | some chat_text ↦ ok chat_text
    ]
