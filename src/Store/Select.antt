-- ===== src/Store/Select.antt =====
-- The operations that read: `eligible_item_ids`, `eligible_relay_ingest_item_ids`,
-- `summary_preview_candidates`, `transfer_candidates_for_request`, `get_existing_items_for_ids`.
use aethos_linux.Base.{
  ℕ, zero, suc, Bool, List, [], ◌∷◌, Option, none, some, if◌then◌else◌, map, filter, length, take,
  ◌-◌, ◌++◌,
}
use aethos_linux.Base.Int.{ℤ, pos, negsuc, as_i64, ltb_ℤ}
use aethos_linux.Base.Sort.{sort_by}
use aethos_linux.Base.Sort.Order.{then_by, dual, int_ord, nat_ord, text_ord}
use aethos_linux.Base.Text.{Text, text_lt, contains}
use aethos_linux.Base.Assoc.{insert}
use aethos_linux.Store.Types.{StoredItemRecord, Row, Table, record_of}
use aethos_linux.Store.{find, min_expiry, prune_expired}

-- `ORDER BY item_id ASC`
unfoldable pub eligible_item_ids : Table → ℕ → Table × List Text
unfolding prune_expired sort_by text_lt
eligible_item_ids table now_ms =
    let pruned = prune_expired table now_ms in
    (pruned, sort_by text_lt (map (λ row. row.item_id) pruned))

-- `ORDER BY hop_count ASC, LENGTH(envelope_b64) ASC, recorded_at_unix_ms DESC, item_id ASC`
unfoldable pub ranks_first : Row → Row → Bool
ranks_first =
    then_by int_ord (λ row. row.hop_count)
      (then_by nat_ord (λ row. length row.envelope_b64)
        (then_by (dual int_ord) (λ row. row.recorded_at_unix_ms)
          (λ lhs rhs. text_ord.before lhs.item_id rhs.item_id)))

-- `LIMIT ?1`: a negative limit is none.
unfoldable pub limit : ℤ → List Text → List Text
limit (pos n) item_ids = take n item_ids
limit (negsuc n) item_ids = item_ids

unfoldable pub eligible_relay_ingest_item_ids : Table → ℕ → ℕ → Table × List Text
unfolding prune_expired sort_by ranks_first limit
eligible_relay_ingest_item_ids table now_ms max_items =
    let pruned = prune_expired table now_ms in
    (pruned, limit (as_i64 max_items) (map (λ row. row.item_id) (sort_by ranks_first pruned)))

unfoldable pub summary_preview_candidates : Table → ℕ → Table × List StoredItemRecord
unfolding prune_expired sort_by ranks_first record_of
summary_preview_candidates table now_ms =
    let pruned = prune_expired table now_ms in (pruned, map record_of (sort_by ranks_first pruned))

-- `WHERE item_id = ?1 AND expiry_unix_ms > ?2`
unfoldable pub candidate : Table → ℕ → Text → Option StoredItemRecord
unfolding find min_expiry record_of
candidate table now_ms item_id = elim (find item_id table) [
  | none ↦ none
  | some row ↦ if ltb_ℤ (min_expiry now_ms) row.expiry_unix_ms then some (record_of row) else none
]

unfoldable pub transfer_candidates_for_request : Table → List Text → ℕ → List StoredItemRecord
unfolding candidate
transfer_candidates_for_request table [] now_ms = []
transfer_candidates_for_request table (item_id ∷ item_ids) now_ms =
    let out = transfer_candidates_for_request table item_ids now_ms in
    elim (candidate table now_ms item_id) [ none ↦ out | some record_found ↦ record_found ∷ out ]

abbrev pub sqlite_max_variables : ℕ
sqlite_max_variables = 999

-- `item_ids.chunks(size)`: `room` more items go into the chunk at hand, which comes first.
unfoldable pub chunks_from : ℕ → ℕ → List Text → List Text → List (List Text)
chunks_from size room chunk [] = chunk ∷ []
chunks_from size zero chunk (item_id ∷ item_ids) =
    chunk ∷ chunks_from size (size - 1) (item_id ∷ []) item_ids
chunks_from size (suc room) chunk (item_id ∷ item_ids) =
    chunks_from size room (chunk ++ item_id ∷ []) item_ids

unfoldable pub chunks : ℕ → List Text → List (List Text)
unfolding chunks_from
chunks size [] = []
chunks size (item_id ∷ item_ids) = chunks_from size (size - 1) (item_id ∷ []) item_ids

-- `WHERE item_id IN (...)`, row by row into the map.
unfoldable pub collect_rows :
    List (Text × StoredItemRecord) → Table → List (Text × StoredItemRecord)
unfolding insert record_of
collect_rows out [] = out
collect_rows out (row ∷ rows) = collect_rows (insert row.item_id (record_of row) out) rows

unfoldable pub collect_chunks :
    Table → List (Text × StoredItemRecord) → List (List Text) → List (Text × StoredItemRecord)
unfolding collect_rows contains
collect_chunks table out [] = out
collect_chunks table out (chunk ∷ rest) =
    collect_chunks table (collect_rows out (filter (λ row. contains chunk row.item_id) table)) rest

unfoldable pub get_existing_items_for_ids : Table → List Text → List (Text × StoredItemRecord)
unfolding collect_chunks chunks
get_existing_items_for_ids table item_ids =
    collect_chunks table [] (chunks sqlite_max_variables item_ids)
