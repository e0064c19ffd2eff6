-- ===== src/Envelope/RoundTrip.antt =====
-- An envelope that is built and then decoded. The hypotheses say of the crates that a flat map of
-- texts is written and read back, that a short text key is written as its length and its bytes,
-- that base64 is undone by its decoder, and that Ed25519 verifies what it signs.
use aethos_linux.Base.{◌+◌, ◌<◌, ◌≡◌, refl, ap, ◌∙◌, true, [], ◌∷◌, some, length}
use aethos_linux.Base.Text.{Text, codes, message, text_eq, text_eq_refl}
use aethos_linux.Base.Assoc.{lookup}
use aethos_linux.Base.Result.{ok, ◌>>=◌}
use aethos_linux.Hex.{AreBytes, bytes_to_hex_lower}
use aethos_linux.Hex.RoundTrip.{parse_wayfarer_id_hex-bytes_to_hex_lower}
use aethos_linux.Envelope.Cbor.{Entries, text, map_value}
use aethos_linux.Envelope.Build.{
  Crates, EnvelopeV1, payload_fields, canonical_bytes_v1, build_signing_payload_v1,
  envelope_signing_digest_v1, build_envelope_payload_b64,
}
use aethos_linux.Envelope.Decode.{
  DecodedEnvelopeV1, FieldMap, insert_field, has_exactly_expected_keys, field_of, collect_fields,
  field_map_of, read_fields, verify_fields, canonical_fields, parse_envelope_cbor,
  decode_envelope_payload_b64,
}
use aethos_linux.Envelope.Canonical.{
  fields_of, AreFlat, canonical_payload, canonical_signing, canonicalize-payload,
  canonicalize-canonical, canonicalize-signing, encode-canonical, encode_fields-canonical,
  decode-written,
}

module _ (crates : Crates)
    (written : (entries : Entries)
      → AreFlat entries
      → (raw : Text) × (crates.into_writer (map_value entries) ≡ ok raw)
        × (crates.from_reader raw ≡ ok (map_value entries, length raw)))
    (key_written : (key : Text)
      → length key < 24
      → crates.into_writer (text key) ≡ ok ((96 + length key) ∷ key)) where
  module _ (sha256_length : (raw : Text) → length (crates.sha256 raw) ≡ 32)
      (pubkey_length : (seed : Text) → length (crates.verifying_key seed) ≡ 32)
      (sig_length : (seed digest : Text) → length (crates.sign seed digest) ≡ 64)
      (point : (seed : Text) → crates.is_point (crates.verifying_key seed) ≡ true)
      (verified : (seed digest : Text)
        → crates.verify (crates.verifying_key seed) digest (crates.sign seed digest) ≡ true)
      (base64 : (raw : Text) → crates.base64_decode (crates.base64_encode raw) ≡ some raw)
      (to_wayfarer_id body seed : Text) where
    abbrev manifest : Text
    manifest = crates.sha256 body

    abbrev signing_raw : Text
    signing_raw =
        (written (canonical_signing crates written key_written to_wayfarer_id manifest body)
          (tt, tt, (tt, tt, (tt, tt, tt)))).0

    abbrev sealed : EnvelopeV1
    sealed = record {
      to_wayfarer_id = to_wayfarer_id;
      manifest_id = manifest;
      body = body;
      author_pubkey = crates.verifying_key seed;
      author_sig = crates.sign seed (envelope_signing_digest_v1 crates signing_raw);
    }

    abbrev flat_payload : AreFlat (canonical_payload crates written key_written sealed)
    flat_payload = (tt, tt, (tt, tt, (tt, tt, (tt, tt, (tt, tt, tt)))))

    abbrev sealed_raw : Text
    sealed_raw = (written (canonical_payload crates written key_written sealed) flat_payload).0

    abbrev opened : DecodedEnvelopeV1
    opened = record {
      to_wayfarer_id_hex = bytes_to_hex_lower to_wayfarer_id;
      manifest_id_hex = bytes_to_hex_lower manifest;
      author_wayfarer_id_hex = bytes_to_hex_lower (crates.sha256 (crates.verifying_key seed));
      body = body;
    }

    signing-written : build_signing_payload_v1 crates to_wayfarer_id manifest body ≡ ok signing_raw
    unfolding build_signing_payload_v1
    signing-written =
        encode_fields-canonical crates written key_written
          (message "failed serializing signing payload cbor: ")
          (canonical_signing crates written key_written to_wayfarer_id manifest body)
          (canonical_signing crates written key_written to_wayfarer_id manifest body)
          (tt, tt, (tt, tt, (tt, tt, tt))) (tt, tt, (tt, tt, (tt, tt, tt)))
          (canonicalize-signing crates written key_written to_wayfarer_id manifest body)

    payload-written : canonical_bytes_v1 crates sealed ≡ ok sealed_raw
    unfolding canonical_bytes_v1
    payload-written =
        encode_fields-canonical crates written key_written
          (message "failed serializing envelope cbor: ") (fields_of (payload_fields sealed))
          (canonical_payload crates written key_written sealed)
          (tt, tt, (tt, tt, (tt, tt, (tt, tt, (tt, tt, tt))))) flat_payload
          (canonicalize-payload crates written key_written sealed)

    -- The fields that are collected, the last first.
    abbrev collected : FieldMap
    collected =
        (codes "to_wayfarer_id", to_wayfarer_id)
        ∷ (codes "author_pubkey", sealed.author_pubkey)
        ∷ (codes "manifest_id", manifest)
        ∷ (codes "author_sig", sealed.author_sig)
        ∷ (codes "body", body)
        ∷ []

    collect_fields-payload :
        collect_fields [] (canonical_payload crates written key_written sealed) ≡ ok collected
    unfolding collect_fields insert_field lookup text_eq
    collect_fields-payload = refl

    read_fields-collected : length to_wayfarer_id ≡ 32 → read_fields collected ≡ ok sealed
    unfolding read_fields has_exactly_expected_keys field_of lookup text_eq
    read_fields-collected size =
        rw (size, sha256_length body, pubkey_length seed)
          (rw (sig_length seed (envelope_signing_digest_v1 crates signing_raw)) refl)

    verify_fields-sealed : verify_fields crates sealed ≡ ok opened
    unfolding verify_fields
    verify_fields-sealed =
        rw (signing-written, point seed)
          (rw (verified seed (envelope_signing_digest_v1 crates signing_raw)) refl)

    canonical_fields-sealed :
        canonical_fields crates sealed_raw
        ≡ ok (map_value (canonical_payload crates written key_written sealed))
    unfolding canonical_fields
    canonical_fields-sealed =
        rw
          (decode-written crates written key_written
            (canonical_payload crates written key_written sealed) flat_payload (message "envelope"))
          (rw
            (encode-canonical crates written key_written
              (canonical_payload crates written key_written sealed)
              (canonical_payload crates written key_written sealed) flat_payload
              (canonicalize-canonical crates written key_written sealed))
            (rw (text_eq_refl sealed_raw) refl))

    parse_envelope_cbor-sealed :
        length to_wayfarer_id ≡ 32 → parse_envelope_cbor crates sealed_raw ≡ ok opened
    unfolding parse_envelope_cbor field_map_of
    parse_envelope_cbor-sealed size = rw canonical_fields-sealed (
        ap (λ r. r >>= λ field_map. read_fields field_map >>= verify_fields crates)
          collect_fields-payload
        ∙ ap (λ r. r >>= verify_fields crates) (read_fields-collected size)
        ∙ verify_fields-sealed)

    -- For crates that read back a map from texts to texts and byte strings that they wrote, write a
    -- text key shorter than 24 bytes as its length and its bytes, undo their own base64, give
    -- hashes, keys and signatures of 32, 32 and 64 bytes and verify what they sign: an envelope for
    -- a receiver of 32 bytes is built, and decoding it gives the receiver, the hash of the body,
    -- the hash of the author's key and the body.
    pub build_envelope_payload_b64-decode_envelope_payload_b64 :
        length to_wayfarer_id ≡ 32
        → AreBytes to_wayfarer_id
        → (payload_b64 : Text) × (build_envelope_payload_b64 crates
              (bytes_to_hex_lower to_wayfarer_id)
              body
              seed
            ≡ ok payload_b64)
          × (decode_envelope_payload_b64 crates payload_b64 ≡ ok opened)
    unfolding build_envelope_payload_b64 decode_envelope_payload_b64
    build_envelope_payload_b64-decode_envelope_payload_b64 size are = (
      crates.base64_encode sealed_raw,
      rw (parse_wayfarer_id_hex-bytes_to_hex_lower to_wayfarer_id size are)
          (rw signing-written (rw payload-written refl)),
      rw (base64 sealed_raw, decode_envelope_payload_b64) (parse_envelope_cbor-sealed size),
    )
