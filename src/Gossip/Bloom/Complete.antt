-- ===== src/Gossip/Bloom/Complete.antt =====
-- The bloom filter against the items that it is built of, src/aethos_core/gossip_sync.rs.
use aethos_linux.Base.{
  ℕ, zero, suc, ◌/◌, ◌<◌, ◌≡◌, refl, sym, ap, ◌∙◌, subst, true, inl, inr, List, [], ◌∷◌,
  length-replicate, replicate, Bool-cases, arith,
}
use aethos_linux.Base.Text.{Text, text_eq, text_eq_iff, contains}
use aethos_linux.Base.Result.{Result, ok, >>=-eq-ok}
use aethos_linux.Hex.{AreBytes, decode_item_id}
use aethos_linux.Gossip.Types.{bloom_filter_bytes, bloom_hash_count}
use aethos_linux.Gossip.Bloom.{
  set_bit, has_bit, bit_index, add_hashes, add_items, build_bloom_filter, has_hashes,
  bloom_might_contain,
}
use aethos_linux.Gossip.Bloom.Bits.{
  IsFilter, set_bit-IsFilter, has_bit-set_bit_self, has_bit-set_bit,
}

-- Every bit of the first filter is a bit of the second.
abbrev Includes : Text → Text → Type 0
Includes bloom more = (bit : ℕ) → has_bit bloom bit ≡ true → has_bit more bit ≡ true

module _ (sha256 : Text → Text) where
  inside : (item_bytes : Text) (idx : ℕ) → bit_index sha256 item_bytes idx / 8 < bloom_filter_bytes
  unfolding bit_index
  inside item_bytes idx = omega arith

  add_hashes-Includes :
      (item_bytes : Text) (idx count : ℕ) (bloom : Text)
      → IsFilter bloom_filter_bytes bloom
      → IsFilter bloom_filter_bytes (add_hashes sha256 item_bytes idx count bloom)
        × Includes bloom (add_hashes sha256 item_bytes idx count bloom)
  unfolding add_hashes
  add_hashes-Includes item_bytes idx zero bloom is = (is, λ bit h. h)
  add_hashes-Includes item_bytes idx (suc count) bloom is =
      let bit = bit_index sha256 item_bytes idx in
      let rest =
        add_hashes-Includes item_bytes (suc idx) count (set_bit bloom bit)
          (set_bit-IsFilter bloom_filter_bytes bloom bit is) in
      (
        rest.0,
        λ other h.
            rest.1 other
              (has_bit-set_bit bloom_filter_bytes bloom bit other is (inside item_bytes idx) h),
      )

  add_hashes-has_hashes :
      (item_bytes : Text) (idx count : ℕ) (bloom : Text)
      → IsFilter bloom_filter_bytes bloom
      → has_hashes sha256 (add_hashes sha256 item_bytes idx count bloom) item_bytes idx count ≡ true
  unfolding add_hashes has_hashes
  add_hashes-has_hashes item_bytes idx zero bloom is = refl
  add_hashes-has_hashes item_bytes idx (suc count) bloom is =
      let bit = bit_index sha256 item_bytes idx in
      let next = set_bit-IsFilter bloom_filter_bytes bloom bit is in
      let set =
        (add_hashes-Includes item_bytes (suc idx) count (set_bit bloom bit) next).1 bit
          (has_bit-set_bit_self bloom_filter_bytes bloom bit is (inside item_bytes idx)) in
      rw set (add_hashes-has_hashes item_bytes (suc idx) count (set_bit bloom bit) next)

  has_hashes-Includes :
      (bloom more item_bytes : Text) (idx count : ℕ)
      → Includes bloom more
      → has_hashes sha256 bloom item_bytes idx count ≡ true
      → has_hashes sha256 more item_bytes idx count ≡ true
  unfolding has_hashes
  has_hashes-Includes bloom more item_bytes idx zero includes h = refl
  has_hashes-Includes bloom more item_bytes idx (suc count) includes h =
      elim (Bool-cases (has_bit bloom (bit_index sha256 item_bytes idx))) [
        | inr clear ↦ cc (rw (clear, has_hashes) at h)
        | inl set ↦
            rw (includes (bit_index sha256 item_bytes idx) set, has_hashes)
              (has_hashes-Includes bloom more item_bytes (suc idx) count includes
                (rw (set, has_hashes) at h))
      ]

  -- What holds of a filter from which another is built on.
  add_items-Includes :
      (item_ids : List Text) (bloom built : Text)
      → IsFilter bloom_filter_bytes bloom
      → add_items sha256 bloom item_ids ≡ ok built
      → IsFilter bloom_filter_bytes built × Includes bloom built
  unfolding add_items
  add_items-Includes [] bloom built is h =
      subst (λ z. IsFilter bloom_filter_bytes z × Includes bloom z) (ok_injective h)
        (is, λ bit set. set)
    where
      ok_injective : {a b : Text} → ◌≡◌ {A = Result Text Text} (ok a) (ok b) → a ≡ b
      ok_injective e = cc
  add_items-Includes (item_id ∷ item_ids) bloom built is h =
      let decoded =
        >>=-eq-ok (decode_item_id item_id)
          (λ item_bytes.
            add_items sha256 (add_hashes sha256 item_bytes 0 bloom_hash_count bloom) item_ids)
          h in
      let first = add_hashes-Includes decoded.0 0 bloom_hash_count bloom is in
      let rest =
        add_items-Includes item_ids (add_hashes sha256 decoded.0 0 bloom_hash_count bloom) built
          first.0 decoded.2 in
      (rest.0, λ bit set. rest.1 bit (first.1 bit set))

  -- Each item of the list decodes, and its bits are set.
  add_items-has_hashes :
      (item_ids : List Text) (bloom built : Text) (k : Text)
      → IsFilter bloom_filter_bytes bloom
      → add_items sha256 bloom item_ids ≡ ok built
      → contains item_ids k ≡ true
      → (item_bytes : Text) × (decode_item_id k ≡ ok item_bytes)
        × (has_hashes sha256 built item_bytes 0 bloom_hash_count ≡ true)
  unfolding add_items contains
  add_items-has_hashes [] bloom built k is h member = cc
  add_items-has_hashes (item_id ∷ item_ids) bloom built k is h member =
      let decoded =
        >>=-eq-ok (decode_item_id item_id)
          (λ item_bytes.
            add_items sha256 (add_hashes sha256 item_bytes 0 bloom_hash_count bloom) item_ids)
          h in
      let next = add_hashes sha256 decoded.0 0 bloom_hash_count bloom in
      let first = add_hashes-Includes decoded.0 0 bloom_hash_count bloom is in
      elim (Bool-cases (text_eq item_id k)) [
        | inl same ↦ (
          decoded.0,
          ap decode_item_id (sym ((text_eq_iff item_id k).0 same)) ∙ decoded.1,
          has_hashes-Includes next built decoded.0 0 bloom_hash_count
              (add_items-Includes item_ids next built first.0 decoded.2).1
              (add_hashes-has_hashes decoded.0 0 bloom_hash_count bloom is),
        )
        | inr differs ↦
            add_items-has_hashes item_ids next built k first.0 decoded.2
              (rw (differs, contains) at member)
      ]

  zeros : (n : ℕ) → AreBytes (replicate n 0)
  zeros zero = tt
  zeros (suc n) = (omega arith, zeros n)

  -- A filter that was built tells of each of its items that it might contain it: there are no
  -- false negatives, whatever the hash.
  pub build_bloom_filter-bloom_might_contain :
      (item_ids : List Text) (bloom_filter k : Text)
      → build_bloom_filter sha256 item_ids ≡ ok bloom_filter
      → contains item_ids k ≡ true
      → bloom_might_contain sha256 bloom_filter k ≡ ok true
  unfolding build_bloom_filter bloom_might_contain
  build_bloom_filter-bloom_might_contain item_ids bloom_filter k built member =
      let empty : IsFilter bloom_filter_bytes (replicate bloom_filter_bytes 0) =
        (length-replicate {A = ℕ} bloom_filter_bytes 0, zeros bloom_filter_bytes) in
      let size =
        (add_items-Includes item_ids (replicate bloom_filter_bytes 0) bloom_filter empty
          built).0.0 in
      let hashes =
        add_items-has_hashes item_ids (replicate bloom_filter_bytes 0) bloom_filter k empty built
          member in
      rw size (rw (hashes.1) (rw (hashes.2) refl))
