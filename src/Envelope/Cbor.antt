-- ===== src/Envelope/Cbor.antt =====
-- CBOR values as src/aethos_core/protocol.rs uses them. `ciborium`'s reader and writer are
-- parameters; a reader returns the value and the position after it.
use aethos_linux.Base.{ℕ, Bool, not, List, [], ◌∷◌, ◌++◌, ◌==◌, length, map}
use aethos_linux.Base.Int.{ℤ}
use aethos_linux.Base.Sort.{sort_by}
use aethos_linux.Base.Text.{Text, message, text_lt}
use aethos_linux.Base.Result.{Result, ok, ◌>>=◌, ◌>>◌, refuse_if, map_err}

-- `ciborium::value::Value`: `other` is a variant that the source does not look into.
mutual
  pub data Value : Type 0 where
    integer : ℤ → Value
    bytes : Text → Value
    text : Text → Value
    array : Values → Value
    map_value : Entries → Value
    other : Text → Value

  pub data Values : Type 0 where
    no_values : Values
    value_first : Value → Values → Values

  pub data Entries : Type 0 where
    no_entries : Entries
    entry_first : Value → Value → Entries → Entries

-- A vector of entries, and the entries as one.
abbrev pub entries_of : List (Value × Value) → Entries
entries_of [] = no_entries
entries_of (entry ∷ entries) = entry_first entry.0 entry.1 (entries_of entries)

abbrev pub list_of : Entries → List (Value × Value)
list_of no_entries = []
list_of (entry_first key value entries) = (key, value) ∷ list_of entries

-- `left_encoded.cmp(right_encoded)` as a test.
unfoldable pub encoded_before : Text × (Value × Value) → Text × (Value × Value) → Bool
unfolding text_lt
encoded_before left right = text_lt left.0 right.0

module _ (into_writer : Value → Result Text Text)
    (from_reader : Text → Result Text (Value × ℕ)) where
  unfoldable pub encode_cbor_value_raw : Value → Result Text Text
  encode_cbor_value_raw value =
      map_err (λ e. message "CBOR key encode failed: " ++ e) (into_writer value)

  -- `encoded_entries`
  unfoldable pub encode_keys : Entries → Result Text (List (Text × (Value × Value)))
  unfolding encode_cbor_value_raw
  encode_keys no_entries = ok []
  encode_keys (entry_first key value entries) = do
    encoded_key ← encode_cbor_value_raw key
    encoded_entries ← encode_keys entries
    ok ((encoded_key, (key, value)) ∷ encoded_entries)

  unfoldable pub sort_entries : Entries → Result Text Entries
  unfolding encode_keys sort_by encoded_before
  sort_entries entries = do
    encoded_entries ← encode_keys entries
    ok (entries_of (map (λ encoded. encoded.1) (sort_by encoded_before encoded_entries)))

  unfoldable mutual
    unfolding sort_entries

    pub canonicalize_cbor_value : Value → Result Text Value
    canonicalize_cbor_value (array items) = canonicalize_items items >>= λ done. ok (array done)
    canonicalize_cbor_value (map_value entries) = canonicalize_entries entries >>= λ done.
        sort_entries done >>= λ sorted. ok (map_value sorted)
    canonicalize_cbor_value (integer n) = ok (integer n)
    canonicalize_cbor_value (bytes b) = ok (bytes b)
    canonicalize_cbor_value (text t) = ok (text t)
    canonicalize_cbor_value (other raw) = ok (other raw)

    pub canonicalize_items : Values → Result Text Values
    canonicalize_items no_values = ok no_values
    canonicalize_items (value_first item items) = canonicalize_cbor_value item >>= λ first.
        canonicalize_items items >>= λ rest. ok (value_first first rest)

    pub canonicalize_entries : Entries → Result Text Entries
    canonicalize_entries no_entries = ok no_entries
    canonicalize_entries (entry_first key value entries) = canonicalize_cbor_value key >>= λ k.
        canonicalize_cbor_value value >>= λ v.
        canonicalize_entries entries >>= λ rest. ok (entry_first k v rest)

  unfoldable pub encode_cbor_value_deterministic : Value → Result Text Text
  unfolding canonicalize_cbor_value
  encode_cbor_value_deterministic value = do
    canonical ← canonicalize_cbor_value value
    map_err (λ e. message "deterministic CBOR encode failed: " ++ e) (into_writer canonical)

  unfoldable pub decode_cbor_value_exact : Text → Text → Result Text Value
  decode_cbor_value_exact raw context = do
    read ← map_err (λ e. context ++ message " cbor decode failed: " ++ e) (from_reader raw)
    refuse_if (not (read.1 == length raw))
        (context ++ message " must contain exactly one complete CBOR value")
    ok read.0

  -- Of a value that serializes as `value` does.
  unfoldable pub to_cbor_value : Value → Result Text Value
  to_cbor_value value = do
    raw ← map_err (λ e. message "CBOR encode failed: " ++ e) (into_writer value)
    read ← map_err (λ e. message "CBOR decode failed: " ++ e) (from_reader raw)
    ok read.0
