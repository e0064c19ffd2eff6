-- ===== src/Envelope/Canonical.antt =====
-- The canonical form of an envelope's fields, and how they are written: the hypotheses say of the
-- CBOR crate that a flat map of texts is written and read back, and that a short text key is
-- written as its length and its bytes.
use aethos_linux.Base.{ℕ, ◌+◌, ◌<◌, ◌≡◌, refl, true, ◌==◌, [], ◌∷◌, arith, length}
use aethos_linux.Base.Sort.{sort_by, insert_by}
use aethos_linux.Base.Text.{Text, codes, text_lt}
use aethos_linux.Base.Result.{ok}
use aethos_linux.Envelope.Cbor.{
  Value, Entries, integer, bytes, text, array, map_value, other, no_entries, entry_first,
  entries_of, encoded_before, encode_cbor_value_raw, encode_keys, sort_entries,
  canonicalize_cbor_value, encode_cbor_value_deterministic, decode_cbor_value_exact, to_cbor_value,
}
use aethos_linux.Envelope.Build.{Crates, EnvelopeV1, payload_fields, signing_fields, encode_fields}

pub ==_refl : (n : ℕ) → (n == n) ≡ true
==_refl n = ground arith

abbrev pub fields_of : Value → Entries
fields_of (map_value fields) = fields
fields_of _ = no_entries

abbrev pub IsScalar : Value → Type 0
IsScalar (text t) = Unit
IsScalar (bytes b) = Unit
IsScalar (integer n) = ⊥
IsScalar (array items) = ⊥
IsScalar (map_value _) = ⊥
IsScalar (other raw) = ⊥

abbrev pub IsText : Value → Type 0
IsText (text t) = Unit
IsText (bytes b) = ⊥
IsText (integer n) = ⊥
IsText (array items) = ⊥
IsText (map_value _) = ⊥
IsText (other raw) = ⊥

-- A map from texts to texts and byte strings.
abbrev pub AreFlat : Entries → Type 0
AreFlat no_entries = Unit
AreFlat (entry_first key value entries) = IsText key × IsScalar value × AreFlat entries

module _ (crates : Crates)
    (written : (entries : Entries)
      → AreFlat entries
      → (raw : Text) × (crates.into_writer (map_value entries) ≡ ok raw)
        × (crates.from_reader raw ≡ ok (map_value entries, length raw)))
    (key_written : (key : Text)
      → length key < 24
      → crates.into_writer (text key) ≡ ok ((96 + length key) ∷ key)) where
  -- The order of the fields that is written.
  abbrev pub canonical_payload : EnvelopeV1 → Entries
  canonical_payload envelope = entries_of (
      (text (codes "body"), bytes envelope.body)
      ∷ (text (codes "author_sig"), bytes envelope.author_sig)
      ∷ (text (codes "manifest_id"), bytes envelope.manifest_id)
      ∷ (text (codes "author_pubkey"), bytes envelope.author_pubkey)
      ∷ (text (codes "to_wayfarer_id"), bytes envelope.to_wayfarer_id)
      ∷ [])

  encoded :
      (key : Text)
      → length key < 24
      → encode_cbor_value_raw crates.into_writer crates.from_reader (text key)
        ≡ ok ((96 + length key) ∷ key)
  unfolding encode_cbor_value_raw
  encoded key short = rw (key_written key short) refl

  pub canonicalize-payload :
      (envelope : EnvelopeV1)
      → canonicalize_cbor_value crates.into_writer crates.from_reader (payload_fields envelope)
        ≡ ok (map_value (canonical_payload envelope))
  unfolding canonicalize_cbor_value sort_entries encode_keys sort_by insert_by encoded_before
      text_lt
  canonicalize-payload envelope =
      rw
        (
          encoded (codes "author_pubkey") (omega arith),
          encoded (codes "author_sig") (omega arith),
          encoded (codes "body") (omega arith),
          encoded (codes "manifest_id") (omega arith),
          encoded (codes "to_wayfarer_id") (omega arith),
        )
        refl

  -- The order that is written is kept.
  pub canonicalize-canonical :
      (envelope : EnvelopeV1)
      → canonicalize_cbor_value crates.into_writer crates.from_reader
          (map_value (canonical_payload envelope))
        ≡ ok (map_value (canonical_payload envelope))
  unfolding canonicalize_cbor_value sort_entries encode_keys sort_by insert_by encoded_before
      text_lt
  canonicalize-canonical envelope =
      rw
        (
          encoded (codes "author_pubkey") (omega arith),
          encoded (codes "author_sig") (omega arith),
          encoded (codes "body") (omega arith),
          encoded (codes "manifest_id") (omega arith),
          encoded (codes "to_wayfarer_id") (omega arith),
        )
        refl

  abbrev pub canonical_signing : Text → Text → Text → Entries
  canonical_signing to_wayfarer_id manifest_id body = entries_of (
      (text (codes "body"), bytes body)
      ∷ (text (codes "manifest_id"), bytes manifest_id)
      ∷ (text (codes "to_wayfarer_id"), bytes to_wayfarer_id)
      ∷ [])

  pub canonicalize-signing :
      (to_wayfarer_id manifest_id body : Text)
      → canonicalize_cbor_value crates.into_writer crates.from_reader
          (signing_fields to_wayfarer_id manifest_id body)
        ≡ ok (signing_fields to_wayfarer_id manifest_id body)
  unfolding canonicalize_cbor_value sort_entries encode_keys sort_by insert_by encoded_before
      text_lt
  canonicalize-signing to_wayfarer_id manifest_id body =
      rw
        (
          encoded (codes "body") (omega arith),
          encoded (codes "manifest_id") (omega arith),
          encoded (codes "to_wayfarer_id") (omega arith),
        )
        refl

  pub encode-canonical :
      (fields canonical : Entries) (flat : AreFlat canonical)
      → canonicalize_cbor_value crates.into_writer crates.from_reader (map_value fields)
        ≡ ok (map_value canonical)
      → encode_cbor_value_deterministic crates.into_writer crates.from_reader (map_value fields)
        ≡ ok (written canonical flat).0
  unfolding encode_cbor_value_deterministic
  encode-canonical fields canonical flat canonicalizes =
      rw (canonicalizes) (rw ((written canonical flat).1) refl)

  pub encode_fields-canonical :
      (failed : Text) (fields canonical : Entries) (flat : AreFlat fields)
      (canonical_flat : AreFlat canonical)
      → canonicalize_cbor_value crates.into_writer crates.from_reader (map_value fields)
        ≡ ok (map_value canonical)
      → encode_fields crates failed (map_value fields) ≡ ok (written canonical canonical_flat).0
  unfolding encode_fields to_cbor_value
  encode_fields-canonical failed fields canonical flat canonical_flat canonicalizes =
      rw ((written fields flat).1) (
        rw ((written fields flat).2)
          (encode-canonical fields canonical canonical_flat canonicalizes))

  pub decode-written :
      (fields : Entries) (flat : AreFlat fields) (context : Text)
      → decode_cbor_value_exact crates.into_writer crates.from_reader
          (written fields flat).0
          context
        ≡ ok (map_value fields)
  unfolding decode_cbor_value_exact
  decode-written fields flat context =
      rw ((written fields flat).2) (rw (==_refl (length (written fields flat).0)) refl)
