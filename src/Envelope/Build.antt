-- ===== src/Envelope/Build.antt =====
-- The envelope that is sent: `EnvelopeV1`, `build_envelope_payload_b64` and
-- `build_wayfarer_chat_envelope_payload_b64` of src/aethos_core/protocol.rs. What the crates
-- `ciborium`, `base64`, `sha2` and `ed25519_dalek` do is a record of functions.
use aethos_linux.Base.{ℕ, Bool, true, ◌&&◌, ◌||◌, [], ◌∷◌, ◌++◌, Option, ◌==◌, leb}
use aethos_linux.Base.Int.{ℤ, pos, ltb_ℤ}
use aethos_linux.Base.Text.{Text, codes, message}
use aethos_linux.Base.Result.{Result, ok, ◌>>=◌, ◌>>◌, refuse_if, map_err}
use aethos_linux.Hex.{parse_wayfarer_id_hex}
use aethos_linux.Envelope.Cbor.{
  Value, bytes, text, integer, map_value, entries_of, encode_cbor_value_deterministic,
  to_cbor_value,
}

-- `verifying_key`, `sign` and `verify` are those of Ed25519, `is_point` tells whether
-- `VerifyingKey::from_bytes` succeeds, and the base64 is the unpadded one for URLs.
pub record Crates : Type 0 where
  pub into_writer : Value → Result Text Text
  pub from_reader : Text → Result Text (Value × ℕ)
  pub base64_encode : Text → Text
  pub base64_decode : Text → Option Text
  pub sha256 : Text → Text
  pub verifying_key : Text → Text
  pub sign : Text → Text → Text
  pub is_point : Text → Bool
  pub verify : Text → Text → Text → Bool

pub record EnvelopeV1 : Type 0 where
  pub to_wayfarer_id : Text
  pub manifest_id : Text
  pub body : Text
  pub author_pubkey : Text
  pub author_sig : Text

abbrev pub signing_domain : Text
signing_domain = codes "AETHOS_ENVELOPE_V1"

-- A byte that is white space, and the longer sequences of UTF-8 that are.
abbrev is_space_1 : ℕ → Bool
is_space_1 a = (leb 9 a && leb a 13) || a == 32

abbrev is_space_2 : ℕ → ℕ → Bool
is_space_2 a b = a == 0xc2 && (b == 0x85 || b == 0xa0)

abbrev is_space_3 : ℕ → ℕ → ℕ → Bool
is_space_3 a b c =
    (a == 0xe1 && b == 0x9a && c == 0x80)
    || (a == 0xe2
        && b == 0x80
        && ((leb 0x80 c && leb c 0x8a) || c == 0xa8 || c == 0xa9 || c == 0xaf))
    || (a == 0xe2 && b == 0x81 && c == 0x9f)
    || (a == 0xe3 && b == 0x80 && c == 0x80)

-- `trim().is_empty()`
unfoldable pub is_blank : Text → Bool
is_blank [] = true
is_blank (a ∷ []) = is_space_1 a
is_blank (a ∷ b ∷ []) = (is_space_1 a && is_blank (b ∷ [])) || is_space_2 a b
is_blank (a ∷ b ∷ c ∷ rest) =
    (is_space_1 a && is_blank (b ∷ c ∷ rest))
    || (is_space_2 a b && is_blank (c ∷ rest))
    || (is_space_3 a b c && is_blank rest)

-- `payload_fields`, in the order of its keys.
abbrev pub payload_fields : EnvelopeV1 → Value
payload_fields envelope = map_value (
    entries_of (
      (text (codes "author_pubkey"), bytes envelope.author_pubkey)
      ∷ (text (codes "author_sig"), bytes envelope.author_sig)
      ∷ (text (codes "body"), bytes envelope.body)
      ∷ (text (codes "manifest_id"), bytes envelope.manifest_id)
      ∷ (text (codes "to_wayfarer_id"), bytes envelope.to_wayfarer_id)
      ∷ []))

-- `signing_fields`, in the order of its keys.
abbrev pub signing_fields : Text → Text → Text → Value
signing_fields to_wayfarer_id manifest_id body = map_value (
    entries_of (
      (text (codes "body"), bytes body)
      ∷ (text (codes "manifest_id"), bytes manifest_id)
      ∷ (text (codes "to_wayfarer_id"), bytes to_wayfarer_id)
      ∷ []))

abbrev pub chat_fields : Text → ℤ → Value
chat_fields chat_text created_at_unix_ms = map_value (
    entries_of (
      (text (codes "type"), text (codes "wayfarer.chat.v1"))
      ∷ (text (codes "text"), text chat_text)
      ∷ (text (codes "created_at_unix_ms"), integer created_at_unix_ms)
      ∷ []))

module _ (crates : Crates) where
  -- A value through `to_cbor_value` and `encode_cbor_value_deterministic`.
  unfoldable pub encode_fields : Text → Value → Result Text Text
  unfolding to_cbor_value encode_cbor_value_deterministic
  encode_fields failed fields = do
    value ← map_err (λ e. failed ++ e) (to_cbor_value crates.into_writer crates.from_reader fields)
    encode_cbor_value_deterministic crates.into_writer crates.from_reader value

  unfoldable pub canonical_bytes_v1 : EnvelopeV1 → Result Text Text
  unfolding encode_fields
  canonical_bytes_v1 self =
      encode_fields (message "failed serializing envelope cbor: ") (payload_fields self)

  unfoldable pub build_signing_payload_v1 : Text → Text → Text → Result Text Text
  unfolding encode_fields
  build_signing_payload_v1 to_wayfarer_id manifest_id body =
      encode_fields (message "failed serializing signing payload cbor: ")
        (signing_fields to_wayfarer_id manifest_id body)

  unfoldable pub envelope_signing_digest_v1 : Text → Text
  envelope_signing_digest_v1 signing_payload = crates.sha256 (signing_domain ++ signing_payload)

  unfoldable pub build_envelope_payload_b64 : Text → Text → Text → Result Text Text
  unfolding parse_wayfarer_id_hex build_signing_payload_v1 envelope_signing_digest_v1
      canonical_bytes_v1
  build_envelope_payload_b64 to_wayfarer_id_hex body author_signing_key_seed = do
    to_wayfarer_id ← parse_wayfarer_id_hex to_wayfarer_id_hex
    signing_payload ← build_signing_payload_v1 to_wayfarer_id (crates.sha256 body) body
    raw ← canonical_bytes_v1 (record {
      to_wayfarer_id = to_wayfarer_id;
      manifest_id = crates.sha256 body;
      body = body;
      author_pubkey = crates.verifying_key author_signing_key_seed;
      author_sig = crates.sign author_signing_key_seed (envelope_signing_digest_v1 signing_payload);
    })
    ok (crates.base64_encode raw)

  unfoldable pub build_wayfarer_chat_envelope_payload_b64 :
      Text → Text → Text → ℤ → Result Text Text
  unfolding is_blank encode_cbor_value_deterministic build_envelope_payload_b64
  build_wayfarer_chat_envelope_payload_b64 to_wayfarer_id_hex chat_text author_signing_key_seed
        created_at_unix_ms =
      do
        refuse_if (is_blank chat_text) (message "chat text must be non-empty")
        refuse_if (ltb_ℤ created_at_unix_ms (pos 0))
            (message "created_at_unix_ms must be non-negative")
        wayfarer_chat_body ←
            encode_cbor_value_deterministic crates.into_writer crates.from_reader
              (chat_fields chat_text created_at_unix_ms)
        build_envelope_payload_b64 to_wayfarer_id_hex wayfarer_chat_body author_signing_key_seed
