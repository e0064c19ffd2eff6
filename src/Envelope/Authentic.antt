-- ===== src/Envelope/Authentic.antt =====
-- What an envelope satisfies that `decode_envelope_payload_b64` accepts.
use aethos_linux.Base.{
  ◌≡◌, refl, sym, ap, ◌∙◌, Bool, true, false, not, some, Option-cases, Bool-cases, inl, inr,
}
use aethos_linux.Base.Text.{Text, message, text_eq, text_eq_iff}
use aethos_linux.Base.Result.{
  Result, ok, err, ◌>>=◌, ◌>>◌, refuse_if, map_err, >>=-eq-ok, Result-cases,
}
use aethos_linux.Hex.{bytes_to_hex_lower}
use aethos_linux.Envelope.Cbor.{Value, decode_cbor_value_exact, encode_cbor_value_deterministic}
use aethos_linux.Envelope.Build.{
  Crates, EnvelopeV1, build_signing_payload_v1, envelope_signing_digest_v1,
}
use aethos_linux.Envelope.Decode.{
  DecodedEnvelopeV1, FieldMap, field_map_of, read_fields, verify_fields, canonical_fields,
  parse_envelope_cbor, decode_envelope_payload_b64,
}

two_checks :
    (is_point is_verified : Bool) (e f : Text) (summary decoded : DecodedEnvelopeV1)
    → (refuse_if (not is_point) e >> (refuse_if (not is_verified) f >> ok summary)) ≡ ok decoded
    → (is_verified ≡ true) × (decoded ≡ summary)
two_checks true true e f summary decoded h = (refl, cc)
two_checks true false e f summary decoded h = cc
two_checks false is_verified e f summary decoded h = cc

canonical_checks :
    (raw e : Text) (value fields : Value) (encoded : Result Text Text) (prefix : Text → Text)
    → (map_err prefix encoded >>= λ canonical.
        refuse_if (not (text_eq canonical raw)) e >> ok fields)
      ≡ ok value
    → (fields ≡ value) × (encoded ≡ ok raw)
canonical_checks raw e value fields (err failed) prefix h = cc
canonical_checks raw e value fields (ok canonical) prefix h =
    elim (Bool-cases (text_eq canonical raw)) [
      | inl same ↦ (cc (rw same at h), ap ok ((text_eq_iff canonical raw).0 same))
      | inr differs ↦ cc (rw differs at h)
    ]

module _ (crates : Crates) where
  -- The author's signature covers the receiver, the manifest and the body.
  abbrev pub IsSigned : EnvelopeV1 → Type 0
  IsSigned envelope =
      (signing_payload : Text) × (build_signing_payload_v1 crates envelope.to_wayfarer_id
          envelope.manifest_id envelope.body
        ≡ ok signing_payload)
      × (crates.verify envelope.author_pubkey (envelope_signing_digest_v1 crates signing_payload)
            envelope.author_sig
          ≡ true)

  -- The bytes are the canonical form of the value that is read of them, and its fields are those
  -- of the envelope.
  abbrev pub IsCanonical : Text → EnvelopeV1 → Type 0
  IsCanonical raw envelope =
      (value : Value) × (field_map : FieldMap) × (encode_cbor_value_deterministic crates.into_writer
          crates.from_reader value
        ≡ ok raw)
      × (field_map_of value ≡ ok field_map)
      × (read_fields field_map ≡ ok envelope)

  -- What the decoder returns of an envelope.
  abbrev pub summary_of : EnvelopeV1 → DecodedEnvelopeV1
  summary_of envelope = record {
    to_wayfarer_id_hex = bytes_to_hex_lower envelope.to_wayfarer_id;
    manifest_id_hex = bytes_to_hex_lower envelope.manifest_id;
    author_wayfarer_id_hex = bytes_to_hex_lower (crates.sha256 envelope.author_pubkey);
    body = envelope.body;
  }

  verify_fields-IsSigned :
      (envelope : EnvelopeV1) (decoded : DecodedEnvelopeV1)
      → verify_fields crates envelope ≡ ok decoded
      → IsSigned envelope × (decoded ≡ summary_of envelope)
  unfolding verify_fields
  verify_fields-IsSigned envelope decoded h =
      elim (Result-cases (
        build_signing_payload_v1 crates envelope.to_wayfarer_id envelope.manifest_id
          envelope.body)) [
            | inr (e, failed) ↦ cc (rw (failed, verify_fields) at h)
            | inl (signing, built) ↦
                let checked = two_checks _ _ _ _ _ decoded (rw (built, verify_fields) at h) in
                ((signing, built, checked.0), checked.1)
          ]

  canonical_fields-eq-ok :
      (raw : Text) (value : Value)
      → canonical_fields crates raw ≡ ok value
      → encode_cbor_value_deterministic crates.into_writer crates.from_reader value ≡ ok raw
  unfolding canonical_fields
  canonical_fields-eq-ok raw value h =
      elim (Result-cases
        (decode_cbor_value_exact crates.into_writer crates.from_reader raw (message "envelope"))) [
          | inr (e, failed) ↦ cc (rw (failed, canonical_fields) at h)
          | inl (fields, read) ↦
              let checked =
                canonical_checks raw _ value fields _ _ (rw (read, canonical_fields) at h) in
              ap (encode_cbor_value_deterministic crates.into_writer crates.from_reader)
                (sym checked.0)
              ∙ checked.1
        ]

  -- An envelope that the decoder accepts is the canonical encoding of its fields, its author has
  -- signed the receiver, the manifest and the body that are returned, and the author that is
  -- returned is the hash of the key of that signature.
  pub decode_envelope_payload_b64-IsSigned :
      (payload_b64 : Text) (decoded : DecodedEnvelopeV1)
      → decode_envelope_payload_b64 crates payload_b64 ≡ ok decoded
      → (raw : Text) × (envelope : EnvelopeV1) × (crates.base64_decode payload_b64 ≡ some raw)
        × IsCanonical raw envelope
        × IsSigned envelope
        × (decoded ≡ summary_of envelope)
  unfolding decode_envelope_payload_b64 parse_envelope_cbor
  decode_envelope_payload_b64-IsSigned payload_b64 decoded h =
      elim (Option-cases (crates.base64_decode payload_b64)) [
        | inl bad ↦ cc (rw (bad, decode_envelope_payload_b64) at h)
        | inr (raw, good) ↦
            let fields =
              >>=-eq-ok (canonical_fields crates raw)
                (λ f. field_map_of f >>= λ m. read_fields m >>= verify_fields crates)
                (rw (good, decode_envelope_payload_b64) at h) in
            let field_map =
              >>=-eq-ok (field_map_of fields.0) (λ m. read_fields m >>= verify_fields crates)
                fields.2 in
            let envelope = >>=-eq-ok (read_fields field_map.0) (verify_fields crates) field_map.2 in
            let signed = verify_fields-IsSigned envelope.0 decoded envelope.2 in
            (
              raw,
              envelope.0,
              good,
              (
                fields.0,
                field_map.0,
                canonical_fields-eq-ok raw fields.0 fields.1,
                field_map.1,
                envelope.1,
              ),
              signed.0,
              signed.1,
            )
      ]
