-- ===== src/Store.antt =====
-- The object store, src/aethos_core/gossip_store_sqlite.rs. Each operation is a transaction on the
-- table, which is state that it passes on: its SQL statements are functions on the rows, and an
-- error before the commit leaves the table as it was. Failures of SQLite itself, the number of rows
-- that a DELETE reports to the log and the connection are left out.
--   Types     the records, the rows and their casts
--   Select    the operations that read
--   View      the table as a map from identifiers; `Spec`, `Update` and `Refine` the operations
--             on it
pub mod Types
pub mod Select
pub mod View
pub mod Spec
pub mod Update
pub mod Refine
pub mod Expiry
pub mod Listing
pub mod Existing
pub mod Inserts
mod Examples
use aethos_linux.Base.{
  ℕ, ◌+◌, Bool, not, ◌||◌, List, [], ◌∷◌, Option, none, some, ◌==◌, if◌then◌else◌, filter, map, max,
  saturating_add,
}
use aethos_linux.Base.Int.{ℤ, as_i64, as_u64, leb_ℤ}
use aethos_linux.Base.Text.{Text, message, text_eq}
use aethos_linux.Base.Result.{Result, ok, err}
use aethos_linux.Store.Types.{
  ImportWriteObject, RecordPutOutcome, inserted, refreshed, dedupe, Row, Table, row_of,
  clock_skew_tolerance_ms,
}

-- `WHERE item_id = ?1`
unfoldable pub find : Text → Table → Option Row
find item_id [] = none
find item_id (row ∷ table) = if text_eq row.item_id item_id then some row else find item_id table

unfoldable pub min_expiry : ℕ → ℤ
min_expiry now_ms = as_i64 (saturating_add now_ms clock_skew_tolerance_ms)

-- `expiry_unix_ms <= ?1 OR envelope_b64 = ''`
unfoldable pub is_pruned : ℤ → Row → Bool
is_pruned min_expiry row = leb_ℤ row.expiry_unix_ms min_expiry || text_eq row.envelope_b64 []

-- `prune_expired_tx`, and `prune_expired`, which commits it.
unfoldable pub prune_expired : Table → ℕ → Table
unfolding min_expiry is_pruned
prune_expired table now_ms = filter (λ row. not (is_pruned (min_expiry now_ms) row)) table

-- `UPDATE gossip_items SET expiry_unix_ms = ?2, recorded_at_unix_ms = ?3 WHERE item_id = ?1`
unfoldable pub update_row : Text → ℤ → ℤ → Table → Table
update_row item_id expiry_unix_ms recorded_at_unix_ms table =
    map
      (λ row.
        if text_eq row.item_id item_id
        then record row {
          expiry_unix_ms = expiry_unix_ms;
          recorded_at_unix_ms = recorded_at_unix_ms;
        }
        else row)
      table

-- The branch of `record_local_item` where there is a row.
unfoldable pub record_existing :
    Table → Row → Text → Text → ℕ → ℕ → Table × Result Text RecordPutOutcome
unfolding update_row prune_expired
record_existing table row item_id envelope_b64 expiry_unix_ms recorded_at_unix_ms =
    let existing_expiry = as_u64 row.expiry_unix_ms in
    let existing_recorded_at = as_u64 row.recorded_at_unix_ms in
    let next_expiry = max existing_expiry expiry_unix_ms in
    let next_recorded_at = max existing_recorded_at recorded_at_unix_ms in
    if not (text_eq row.envelope_b64 envelope_b64)
    then (table, err (message "existing item_id maps to different envelope bytes"))
    else if not (next_expiry == existing_expiry) || not (next_recorded_at == existing_recorded_at)
    then (
      prune_expired (update_row item_id (as_i64 next_expiry) (as_i64 next_recorded_at) table)
          recorded_at_unix_ms,
      ok (refreshed next_expiry),
    )
    else (prune_expired table recorded_at_unix_ms, ok dedupe)

unfoldable pub record_local_item :
    Table → Text → Text → ℕ → ℕ → ℕ → Table × Result Text RecordPutOutcome
unfolding find row_of prune_expired record_existing
record_local_item table item_id envelope_b64 expiry_unix_ms hop_count recorded_at_unix_ms =
    elim (find item_id table) [
      | some row ↦ record_existing table row item_id envelope_b64 expiry_unix_ms recorded_at_unix_ms
      | none ↦ (
        prune_expired
            (row_of item_id envelope_b64 expiry_unix_ms hop_count recorded_at_unix_ms ∷ table)
            recorded_at_unix_ms,
        ok inserted,
      )
    ]

-- `INSERT OR IGNORE`
unfoldable pub insert_or_ignore : Table → ImportWriteObject → Table
unfolding find row_of
insert_or_ignore table item = elim (find item.item_id table) [
  | some row ↦ table
  | none ↦
      row_of item.item_id item.envelope_b64 item.expiry_unix_ms item.hop_count
        item.recorded_at_unix_ms
      ∷ table
]

unfoldable pub insert_all : Table → List ImportWriteObject → Table
unfolding insert_or_ignore
insert_all table [] = table
insert_all table (item ∷ items) = insert_all (insert_or_ignore table item) items

unfoldable pub insert_import_items : Table → List ImportWriteObject → ℕ → Table
unfolding insert_all prune_expired
insert_import_items table items now_ms = prune_expired (insert_all table items) now_ms
