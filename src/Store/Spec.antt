-- ===== src/Store/Spec.antt =====
-- What src/aethos_core/gossip_store_sqlite.rs promises of its object map, with no mention of rows'
-- order or of SQL: a map from identifiers to rows, in which an object's envelope never changes, its
-- times only grow, and what has expired is dropped.
use aethos_linux.Base.{ℕ, not, ◌&&◌, List, [], ◌∷◌, ◌==◌, Option, none, some, if◌then◌else◌, max}
use aethos_linux.Base.Int.{as_i64, as_u64}
use aethos_linux.Base.Text.{Text, message, text_eq}
use aethos_linux.Base.Result.{Result, ok, err}
use aethos_linux.Store.Types.{
  ImportWriteObject, RecordPutOutcome, inserted, refreshed, dedupe, Row, Table, row_of,
}
use aethos_linux.Store.{
  find, min_expiry, is_pruned, prune_expired, record_local_item, insert_import_items,
}
use aethos_linux.Store.View.{keep, updated}

abbrev pub Objects : Type 0
Objects = Text → Option Row

abbrev pub view : Table → Objects
view table = λ k. find k table

abbrev pub put : Text → Row → Objects → Objects
put item_id row objects = λ k. if text_eq item_id k then some row else objects k

abbrev pub spec_prune : ℕ → Objects → Objects
spec_prune now_ms objects = λ k. keep (λ row. not (is_pruned (min_expiry now_ms) row)) (objects k)

-- The row after a record of one with the same envelope.
abbrev pub merged : Row → ℕ → ℕ → Row
merged row expiry_unix_ms recorded_at_unix_ms =
    updated (as_i64 (max (as_u64 row.expiry_unix_ms) expiry_unix_ms))
      (as_i64 (max (as_u64 row.recorded_at_unix_ms) recorded_at_unix_ms)) row

abbrev pub spec_existing :
    Objects → Row → Text → Text → ℕ → ℕ → Objects × Result Text RecordPutOutcome
spec_existing objects row item_id envelope_b64 expiry_unix_ms recorded_at_unix_ms =
    let next_expiry = max (as_u64 row.expiry_unix_ms) expiry_unix_ms in
    let next_recorded_at = max (as_u64 row.recorded_at_unix_ms) recorded_at_unix_ms in
    if not (text_eq row.envelope_b64 envelope_b64)
    then (objects, err (message "existing item_id maps to different envelope bytes"))
    else (
      spec_prune recorded_at_unix_ms
          (put item_id (merged row expiry_unix_ms recorded_at_unix_ms) objects),
      ok (
          if next_expiry == as_u64 row.expiry_unix_ms
            && next_recorded_at == as_u64 row.recorded_at_unix_ms
          then dedupe
          else refreshed next_expiry),
    )

abbrev pub spec_record : Objects → Text → Text → ℕ → ℕ → ℕ → Objects × Result Text RecordPutOutcome
spec_record objects item_id envelope_b64 expiry_unix_ms hop_count recorded_at_unix_ms =
    elim (objects item_id) [
      | none ↦ (
        spec_prune recorded_at_unix_ms (
            put item_id (row_of item_id envelope_b64 expiry_unix_ms hop_count recorded_at_unix_ms)
              objects),
        ok inserted,
      )
      | some row ↦ spec_existing objects row item_id envelope_b64 expiry_unix_ms recorded_at_unix_ms
    ]

-- The first object of an identifier stays.
abbrev pub spec_insert : Objects → ImportWriteObject → Objects
spec_insert objects item = elim (objects item.item_id) [
  | some row ↦ objects
  | none ↦
      put item.item_id
        (row_of item.item_id item.envelope_b64 item.expiry_unix_ms item.hop_count
          item.recorded_at_unix_ms)
        objects
]

abbrev pub spec_insert_all : Objects → List ImportWriteObject → Objects
spec_insert_all objects [] = objects
spec_insert_all objects (item ∷ items) = spec_insert_all (spec_insert objects item) items

-- The transactions that change the map.
pub data Transaction : Type 0 where
  records : Text → Text → ℕ → ℕ → ℕ → Transaction
  imports : List ImportWriteObject → ℕ → Transaction
  prunes : ℕ → Transaction

-- A sequence of transactions, with what each record returns, the latest first.
abbrev pub Results : Type 0
Results = List (Result Text RecordPutOutcome)

abbrev pub spec_step : Objects × Results → Transaction → Objects × Results
spec_step (objects, results)
      (records item_id envelope_b64 expiry_unix_ms hop_count recorded_at_unix_ms) =
    let step =
      spec_record objects item_id envelope_b64 expiry_unix_ms hop_count recorded_at_unix_ms in
    (step.0, step.1 ∷ results)
spec_step (objects, results) (imports items now_ms) =
    (spec_prune now_ms (spec_insert_all objects items), results)
spec_step (objects, results) (prunes now_ms) = (spec_prune now_ms objects, results)

abbrev pub spec_run : Objects × Results → List Transaction → Objects × Results
spec_run state [] = state
spec_run state (transaction ∷ rest) = spec_run (spec_step state transaction) rest

abbrev pub step : Table × Results → Transaction → Table × Results
step (table, results) (records item_id envelope_b64 expiry_unix_ms hop_count recorded_at_unix_ms) =
    let step =
      record_local_item table item_id envelope_b64 expiry_unix_ms hop_count recorded_at_unix_ms in
    (step.0, step.1 ∷ results)
step (table, results) (imports items now_ms) = (insert_import_items table items now_ms, results)
step (table, results) (prunes now_ms) = (prune_expired table now_ms, results)

abbrev pub run : Table × Results → List Transaction → Table × Results
run state [] = state
run state (transaction ∷ rest) = run (step state transaction) rest

-- The map that a state of the table stands for.
abbrev pub abstraction {ℓ} : {A : Type ℓ} → Table × A → Objects × A
abstraction (table, a) = (view table, a)
