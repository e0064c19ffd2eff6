-- ===== src/Envelope/Idempotent.antt =====
-- The canonical form of a CBOR value is its own canonical form.
use aethos_linux.Base.{◌≡◌, refl, ap, subst, Bool, false, List, [], ◌∷◌, All, map, ℕ}
use aethos_linux.Base.Sort.{sort_by, insert_by}
use aethos_linux.Base.Sort.Order.{IsStrictWeak, before-IsStrictWeak, text_ord}
use aethos_linux.Base.Sort.Laws.{IsSorted, sort_by-IsSorted, All-sort_by}
use aethos_linux.Base.Text.{Text}
use aethos_linux.Base.Result.{Result, ok, err, ◌>>=◌, >>=-eq-ok}
use aethos_linux.Envelope.Cbor.{
  Value, Values, Entries, integer, bytes, text, array, map_value, other, no_values, value_first,
  no_entries, entry_first, entries_of, encoded_before, encode_cbor_value_raw, encode_keys,
  sort_entries, canonicalize_cbor_value, canonicalize_items, canonicalize_entries,
}

-- Sorting a sorted list leaves it as it is.
sort_by-sorted :
    {A : Type 0} (lt : A → A → Bool) (xs : List A) → IsSorted lt xs → sort_by lt xs ≡ xs
unfolding sort_by insert_by
sort_by-sorted lt [] h = refl
sort_by-sorted lt (x ∷ xs) (above, h) = rw (sort_by-sorted lt xs h) (insert_by-least xs above)
  where
    insert_by-least : (ys : List _) → All (λ y. lt y x ≡ false) ys → insert_by lt x ys ≡ (x ∷ ys)
    insert_by-least [] h = refl
    insert_by-least (y ∷ ys) (hy, h) = rw hy refl

encoded_before-IsStrictWeak : IsStrictWeak encoded_before
unfolding encoded_before
encoded_before-IsStrictWeak = before-IsStrictWeak text_ord (λ p. p.0)

abbrev value_or : Value → Result Text Value → Value
value_or default (ok value) = value
value_or default (err e) = default

abbrev values_or : Values → Result Text Values → Values
values_or default (ok values) = values
values_or default (err e) = default

abbrev entries_or : Entries → Result Text Entries → Entries
entries_or default (ok entries) = entries
entries_or default (err e) = default

abbrev keys_or : Result Text (List (Text × (Value × Value))) → List (Text × (Value × Value))
keys_or (ok keys) = keys
keys_or (err e) = []

module _ (into_writer : Value → Result Text Text)
    (from_reader : Text → Result Text (Value × ℕ)) where
  abbrev IsCanonical : Value → Type 0
  IsCanonical value = canonicalize_cbor_value into_writer from_reader value ≡ ok value

  abbrev AreCanonical : Entries → Type 0
  AreCanonical no_entries = Unit
  AreCanonical (entry_first key value entries) =
      IsCanonical key × IsCanonical value × AreCanonical entries

  canonicalize_entries-AreCanonical :
      (entries : Entries)
      → AreCanonical entries
      → canonicalize_entries into_writer from_reader entries ≡ ok entries
  unfolding canonicalize_entries
  canonicalize_entries-AreCanonical no_entries h = refl
  canonicalize_entries-AreCanonical (entry_first key value entries) (k, v, h) =
      rw k (rw v (rw (canonicalize_entries-AreCanonical entries h) refl))

  -- An entry with its encoded key.
  abbrev IsEncoded : Text × (Value × Value) → Type 0
  IsEncoded entry =
      (encode_cbor_value_raw into_writer from_reader entry.1.0 ≡ ok entry.0)
      × IsCanonical entry.1.0
      × IsCanonical entry.1.1

  encode_keys-IsEncoded :
      (entries : Entries) (encoded : List (Text × (Value × Value)))
      → AreCanonical entries
      → encode_keys into_writer from_reader entries ≡ ok encoded
      → All IsEncoded encoded
  unfolding encode_keys
  encode_keys-IsEncoded no_entries encoded canonical h = subst (All IsEncoded) (ap keys_or h) tt
  encode_keys-IsEncoded (entry_first key value entries) encoded (k, v, canonical) h =
      let first =
        >>=-eq-ok (encode_cbor_value_raw into_writer from_reader key)
          (λ encoded_key. encode_keys into_writer from_reader entries >>= λ rest.
            ok ((encoded_key, (key, value)) ∷ rest))
          h in
      let rest =
        >>=-eq-ok (encode_keys into_writer from_reader entries)
          (λ rest. ok ((first.0, (key, value)) ∷ rest)) first.2 in
      subst (All IsEncoded) (ap keys_or rest.2)
        ((first.1, k, v), encode_keys-IsEncoded entries rest.0 canonical rest.1)

  encode_keys-entries_of :
      (encoded : List (Text × (Value × Value)))
      → All IsEncoded encoded
      → encode_keys into_writer from_reader (entries_of (map (λ e. e.1) encoded)) ≡ ok encoded
  unfolding encode_keys
  encode_keys-entries_of [] h = refl
  encode_keys-entries_of (entry ∷ encoded) (here, h) =
      rw (here.0) (rw (encode_keys-entries_of encoded h) refl)

  AreCanonical-entries_of :
      (encoded : List (Text × (Value × Value)))
      → All IsEncoded encoded
      → AreCanonical (entries_of (map (λ e. e.1) encoded))
  AreCanonical-entries_of [] h = tt
  AreCanonical-entries_of (entry ∷ encoded) (here, h) =
      (here.1, here.2, AreCanonical-entries_of encoded h)

  -- Sorted entries are sorted, and still canonical.
  sort_entries-again :
      (entries sorted : Entries)
      → AreCanonical entries
      → sort_entries into_writer from_reader entries ≡ ok sorted
      → AreCanonical sorted × (sort_entries into_writer from_reader sorted ≡ ok sorted)
  unfolding sort_entries
  sort_entries-again entries sorted canonical h =
      let keys =
        >>=-eq-ok (encode_keys into_writer from_reader entries)
          (λ keys. ok (entries_of (map (λ e. e.1) (sort_by encoded_before keys)))) h in
      let ordered = sort_by encoded_before keys.0 in
      let encoded =
        All-sort_by encoded_before IsEncoded keys.0
          (encode_keys-IsEncoded entries keys.0 canonical keys.1) in
      subst (λ z. AreCanonical z × (sort_entries into_writer from_reader z ≡ ok z))
        (ap (entries_or no_entries) keys.2)
        (
          AreCanonical-entries_of ordered encoded,
          rw (encode_keys-entries_of ordered encoded) (
              ap (λ l. ok (entries_of (map (λ e. e.1) l)))
                (sort_by-sorted encoded_before ordered
                  (sort_by-IsSorted encoded_before-IsStrictWeak keys.0))),
        )

  mutual
    unfolding canonicalize_cbor_value canonicalize_items canonicalize_entries

    -- What canonicalizing gives is canonical.
    pub canonicalize-IsCanonical :
        (value canonical : Value)
        → canonicalize_cbor_value into_writer from_reader value ≡ ok canonical
        → canonicalize_cbor_value into_writer from_reader canonical ≡ ok canonical
    canonicalize-IsCanonical (array items) canonical h =
        let done =
          >>=-eq-ok (canonicalize_items into_writer from_reader items) (λ done. ok (array done))
            h in
        subst IsCanonical (ap (value_or (text [])) done.2)
          (rw (canonicalize_items-again items done.0 done.1) refl)
    canonicalize-IsCanonical (map_value entries) canonical h =
        let done =
          >>=-eq-ok (canonicalize_entries into_writer from_reader entries)
            (λ done. sort_entries into_writer from_reader done >>= λ sorted. ok (map_value sorted))
            h in
        let sorted =
          >>=-eq-ok (sort_entries into_writer from_reader done.0) (λ sorted. ok (map_value sorted))
            done.2 in
        let again =
          sort_entries-again done.0 sorted.0 (canonicalize_entries-again entries done.0 done.1)
            sorted.1 in
        subst IsCanonical (ap (value_or (text [])) sorted.2)
          (rw (canonicalize_entries-AreCanonical sorted.0 again.0) (rw (again.1) refl))
    canonicalize-IsCanonical (integer n) canonical h =
        subst IsCanonical (ap (value_or (text [])) h) refl
    canonicalize-IsCanonical (bytes b) canonical h =
        subst IsCanonical (ap (value_or (text [])) h) refl
    canonicalize-IsCanonical (text t) canonical h =
        subst IsCanonical (ap (value_or (text [])) h) refl
    canonicalize-IsCanonical (other raw) canonical h =
        subst IsCanonical (ap (value_or (text [])) h) refl

    canonicalize_items-again :
        (items done : Values)
        → canonicalize_items into_writer from_reader items ≡ ok done
        → canonicalize_items into_writer from_reader done ≡ ok done
    canonicalize_items-again no_values done h =
        subst (λ z. canonicalize_items into_writer from_reader z ≡ ok z)
          (ap (values_or no_values) h) refl
    canonicalize_items-again (value_first item items) done h =
        let first =
          >>=-eq-ok (canonicalize_cbor_value into_writer from_reader item)
            (λ first. canonicalize_items into_writer from_reader items >>= λ rest.
              ok (value_first first rest))
            h in
        let rest =
          >>=-eq-ok (canonicalize_items into_writer from_reader items)
            (λ rest. ok (value_first first.0 rest)) first.2 in
        subst (λ z. canonicalize_items into_writer from_reader z ≡ ok z)
          (ap (values_or no_values) rest.2)
          (rw (canonicalize-IsCanonical item first.0 first.1)
            (rw (canonicalize_items-again items rest.0 rest.1) refl))

    canonicalize_entries-again :
        (entries done : Entries)
        → canonicalize_entries into_writer from_reader entries ≡ ok done
        → AreCanonical done
    canonicalize_entries-again no_entries done h =
        subst AreCanonical (ap (entries_or no_entries) h) tt
    canonicalize_entries-again (entry_first key value entries) done h =
        let k =
          >>=-eq-ok (canonicalize_cbor_value into_writer from_reader key)
            (λ k. canonicalize_cbor_value into_writer from_reader value >>= λ v.
              canonicalize_entries into_writer from_reader entries >>= λ rest.
              ok (entry_first k v rest))
            h in
        let v =
          >>=-eq-ok (canonicalize_cbor_value into_writer from_reader value)
            (λ v. canonicalize_entries into_writer from_reader entries >>= λ rest.
              ok (entry_first k.0 v rest))
            k.2 in
        let rest =
          >>=-eq-ok (canonicalize_entries into_writer from_reader entries)
            (λ rest. ok (entry_first k.0 v.0 rest)) v.2 in
        subst AreCanonical (ap (entries_or no_entries) rest.2) (
          canonicalize-IsCanonical key k.0 k.1,
          canonicalize-IsCanonical value v.0 v.1,
          canonicalize_entries-again entries rest.0 rest.1,
        )
