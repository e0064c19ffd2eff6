-- ===== src/Gossip/Bloom/Examples.antt =====
-- Runs of the bloom filter.
use aethos_linux.Base.{◌≡◌, refl, true, false, List, [], ◌∷◌, replicate}
use aethos_linux.Base.Text.{Text, text_eq, contains}
use aethos_linux.Base.Result.{ok}
use aethos_linux.Gossip.Bloom.{build_bloom_filter, bloom_might_contain}
use aethos_linux.Gossip.Bloom.Complete.{build_bloom_filter-bloom_might_contain}

abbrev item_ids : List Text
item_ids = replicate 64 97 ∷ replicate 64 98 ∷ []

-- With the identity in place of the hash.
built : (bloom : Text) × (build_bloom_filter (λ x. x) item_ids ≡ ok bloom)
unfolding build_bloom_filter
built = (_, refl)

build_bloom_filter-bloom_might_contain_example :
    bloom_might_contain (λ x. x) built.0 (replicate 64 98) ≡ ok true
unfolding contains text_eq
build_bloom_filter-bloom_might_contain_example =
    build_bloom_filter-bloom_might_contain (λ x. x) item_ids built.0 (replicate 64 98) built.1 refl

-- An item that was not added is told apart.
not_added : bloom_might_contain (λ x. x) (replicate 2048 0) (replicate 64 99) ≡ ok false
unfolding bloom_might_contain
not_added = refl
