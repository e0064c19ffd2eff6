-- ===== src/Gossip/Request.antt =====
-- Which items a client asks a peer for: `select_request_item_ids_from_summary_with_context` and
-- `build_request_frame`. The query of the bloom filter is an argument of the selection.
pub mod Frame
use aethos_linux.Base.{
  ℕ, ◌+◌, Bool, true, false, not, ◌||◌, List, [], ◌∷◌, ◌++◌, Option, none, some, leb, ◌==◌,
  if◌then◌else◌, length, take, filter, min,
}
use aethos_linux.Base.Sort.{sort_by}
use aethos_linux.Base.Text.{Text, text_lt, contains, dedup}
use aethos_linux.Base.Result.{Result, ok, err, ◌>>=◌, ◌>>◌}
use aethos_linux.Hex.{is_valid_item_id}
use aethos_linux.Gossip.Types.{SummaryFrame, GossipSyncFrame, request, max_want_items}
use aethos_linux.Gossip.Validate.{validate_frame}
use aethos_linux.Gossip.Validate.Accepts.{decoded_key}

-- `sort_by_key(|item_id| decode_item_id(item_id).unwrap_or_default())`
unfoldable pub sort_by_decoded : List Text → List Text
unfolding sort_by decoded_key
sort_by_decoded item_ids = sort_by (λ a b. text_lt (decoded_key a) (decoded_key b)) item_ids

module _ (might_contain : Text → Text → Result Text Bool) (bloom_filter : Text) where
  -- The loop over the preview and the one over the candidates: `seen` is the set of the items met.
  unfoldable pub eligible_from : List Text → List Text → List Text → Result Text (List Text)
  unfolding contains
  eligible_from local_have seen [] = ok []
  eligible_from local_have seen (item_id ∷ item_ids) =
      let known = eligible_from local_have seen item_ids in
      let new = eligible_from local_have (item_id ∷ seen) item_ids in
      if contains local_have item_id || contains seen item_id then known else do
        wanted ← might_contain bloom_filter item_id
        rest ← new
        ok (if wanted then item_id ∷ rest else rest)

-- The loop over both lists: at most `request_cap` items, each once.
unfoldable pub select_from : ℕ → List Text → List Text → List Text
unfolding contains
select_from request_cap selected [] = []
select_from request_cap selected (item_id ∷ item_ids) =
    let skip = select_from request_cap selected item_ids in
    let go = select_from request_cap (item_id ∷ selected) item_ids in
    if leb request_cap (length selected)
    then []
    else if contains selected item_id
    then skip
    else item_id ∷ go

abbrev pub unwrap_ids : Option (List Text) → List Text
unwrap_ids none = []
unwrap_ids (some item_ids) = item_ids

unfoldable pub select_request_item_ids_from_summary_with_context :
    (Text → Text → Result Text Bool)
    → SummaryFrame
    → ℕ
    → List Text
    → List Text
    → Result Text (List Text)
unfolding eligible_from select_from sort_by_decoded
select_request_item_ids_from_summary_with_context might_contain summary max_want candidate_item_ids
      local_have_item_ids =
    let request_cap = min max_want max_want_items in
    if request_cap == 0 then ok [] else do
      preview_eligible ←
          eligible_from might_contain summary.bloom_filter local_have_item_ids []
            (unwrap_ids summary.preview_item_ids)
      candidate_eligible ←
          eligible_from might_contain summary.bloom_filter local_have_item_ids [] candidate_item_ids
      ok (sort_by_decoded (select_from request_cap [] (preview_eligible ++ candidate_eligible)))

-- `want` after `retain`, `sort_by_key`, `dedup` and `truncate`.
unfoldable pub wanted_item_ids : List Text → ℕ → List Text
unfolding sort_by_decoded dedup is_valid_item_id
wanted_item_ids want max_want =
    take (min max_want max_want_items) (dedup (sort_by_decoded (filter is_valid_item_id want)))

unfoldable pub build_request_frame :
    (Text → Text) → (Text → Option Text) → List Text → ℕ → Result Text GossipSyncFrame
unfolding validate_frame wanted_item_ids
build_request_frame sha256 base64_decode want max_want =
    let frame = request (record { want = wanted_item_ids want max_want }) in
    do validate_frame sha256 base64_decode frame; ok frame
