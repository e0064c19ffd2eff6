-- ===== src/Gossip/Bloom.antt =====
-- The bloom filter of a SUMMARY frame, src/aethos_core/gossip_sync.rs. SHA-256 is a parameter.
pub mod Bits
pub mod Complete
mod Examples
use aethos_linux.Base.{
  ℕ, zero, suc, ◌+◌, ◌*◌, ◌/◌, ◌%◌, ◌^◌, Bool, true, false, not, List, [], ◌∷◌, ◌++◌, Option, none,
  some, ◌==◌, if◌then◌else◌, length, get_elem?, set, take, replicate,
}
use Prim.Native.Nat.{bit_and, bit_or}
use aethos_linux.Base.Text.{Text, message}
use aethos_linux.Base.Result.{Result, ok, err, ◌>>=◌, ◌>>◌, refuse_if}
use aethos_linux.Hex.{decode_item_id}
use aethos_linux.Relay.Ingest.{from_be_bytes}
use aethos_linux.Gossip.Types.{bloom_filter_bytes, bloom_hash_count}

-- `bloom[byte_index]`; no index is past the end.
abbrev pub byte_at : Text → ℕ → ℕ
byte_at bloom byte_index = elim (get_elem? bloom byte_index) [ none ↦ 0 | some byte ↦ byte ]

-- `bloom[byte_index] |= 1 << bit_offset`
unfoldable pub set_bit : Text → ℕ → Text
set_bit bloom bit_index =
    set bloom (bit_index / 8) (bit_or (byte_at bloom (bit_index / 8)) (2 ^ (bit_index % 8)))

-- `bloom_filter[byte_index] & (1 << bit_offset) != 0`
unfoldable pub has_bit : Text → ℕ → Bool
has_bit bloom bit_index = not (bit_and (byte_at bloom (bit_index / 8)) (2 ^ (bit_index % 8)) == 0)

module _ (sha256 : Text → Text) where
  unfoldable pub bit_index : Text → ℕ → ℕ
  unfolding from_be_bytes
  bit_index item_bytes hash_idx =
      from_be_bytes 0 (take 8 (sha256 (item_bytes ++ hash_idx ∷ []))) % (bloom_filter_bytes * 8)

  -- The loop over `hash_idx`, for the next `count` of its values.
  unfoldable pub add_hashes : Text → ℕ → ℕ → Text → Text
  unfolding set_bit bit_index
  add_hashes item_bytes hash_idx zero bloom = bloom
  add_hashes item_bytes hash_idx (suc count) bloom =
      add_hashes item_bytes (suc hash_idx) count (set_bit bloom (bit_index item_bytes hash_idx))

  unfoldable pub add_items : Text → List Text → Result Text Text
  unfolding add_hashes decode_item_id
  add_items bloom [] = ok bloom
  add_items bloom (item_id ∷ item_ids) = decode_item_id item_id >>= λ item_bytes.
      add_items (add_hashes item_bytes 0 bloom_hash_count bloom) item_ids

  unfoldable pub build_bloom_filter : List Text → Result Text Text
  unfolding add_items
  build_bloom_filter item_ids = add_items (replicate bloom_filter_bytes 0) item_ids

  -- The loop of `bloom_might_contain`.
  unfoldable pub has_hashes : Text → Text → ℕ → ℕ → Bool
  unfolding has_bit bit_index
  has_hashes bloom_filter item_bytes hash_idx zero = true
  has_hashes bloom_filter item_bytes hash_idx (suc count) =
      let rest = has_hashes bloom_filter item_bytes (suc hash_idx) count in
      if not (has_bit bloom_filter (bit_index item_bytes hash_idx)) then false else rest

  unfoldable pub bloom_might_contain : Text → Text → Result Text Bool
  unfolding has_hashes decode_item_id
  bloom_might_contain bloom_filter item_id = do
    refuse_if (not (length bloom_filter == bloom_filter_bytes))
        (message "invalid bloom filter length")
    item_bytes ← decode_item_id item_id
    ok (has_hashes bloom_filter item_bytes 0 bloom_hash_count)
