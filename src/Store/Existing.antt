-- ===== src/Store/Existing.antt =====
-- `get_existing_items_for_ids` of src/aethos_core/gossip_store_sqlite.rs, which asks in chunks
-- because SQLite bounds the number of variables in a statement.
use aethos_linux.Base.{
  ℕ, zero, suc, ◌+◌, ◌-◌, ◌≤◌, ◌≡◌, refl, sym, ap, ◌∙◌, Bool, false, inl, inr, List, [], ◌∷◌, ◌++◌,
  ◌||◌, Option, none, some, if◌then◌else◌, filter, All, Bool-cases, arith, length, length-append,
}
use mathlib.Core.Option
use aethos_linux.Base.Text.{Text, text_eq, text_eq_iff, contains}
use aethos_linux.Base.Assoc.{lookup, insert, lookup-insert_same, lookup-insert_other}
use aethos_linux.Store.Types.{StoredItemRecord, Row, Table, record_of}
use aethos_linux.Store.{find}
use aethos_linux.Store.Select.{
  sqlite_max_variables, chunks_from, chunks, collect_rows, collect_chunks,
  get_existing_items_for_ids,
}
use aethos_linux.Store.View.{IsKeyed, IsValid, keep, find-filter, filter-IsKeyed, find-item_id}

-- No statement has more variables than the chunk size.
chunks_from-length :
    (size room : ℕ) (chunk item_ids : List Text)
    → 1 ≤ size
    → length chunk + room ≤ size
    → All (λ c. length c ≤ size) (chunks_from size room chunk item_ids)
unfolding chunks_from
chunks_from-length size room chunk [] p h = (omega arith, tt)
chunks_from-length size zero chunk (k ∷ item_ids) p h =
    (omega arith, chunks_from-length size (size - 1) (k ∷ []) item_ids p (omega arith))
chunks_from-length size (suc room) chunk (k ∷ item_ids) p h =
    chunks_from-length size room (chunk ++ k ∷ []) item_ids p
      (omega (arith, length-append chunk (k ∷ [])))

abbrev pub asked : List (List Text) → Text → Bool
asked [] k = false
asked (chunk ∷ rest) k = contains chunk k || asked rest k

pub contains-append :
    (xs ys : List Text) (k : Text) → contains (xs ++ ys) k ≡ (contains xs k || contains ys k)
unfolding contains
contains-append [] ys k = refl
contains-append (x ∷ xs) ys k = ground (arith, contains-append xs ys k)

chunks_from-asked :
    (size room : ℕ) (chunk item_ids : List Text) (k : Text)
    → asked (chunks_from size room chunk item_ids) k ≡ (contains chunk k || contains item_ids k)
unfolding chunks_from contains
chunks_from-asked size room chunk [] k = refl
chunks_from-asked size zero chunk (x ∷ item_ids) k =
    ground (arith, chunks_from-asked size (size - 1) (x ∷ []) item_ids k)
chunks_from-asked size (suc room) chunk (x ∷ item_ids) k = ground (
  arith,
  chunks_from-asked size room (chunk ++ x ∷ []) item_ids k,
  contains-append chunk (x ∷ []) k,
)

pub chunks-asked :
    (size : ℕ) (item_ids : List Text) (k : Text)
    → asked (chunks size item_ids) k ≡ contains item_ids k
unfolding chunks contains
chunks-asked size [] k = refl
chunks-asked size (x ∷ item_ids) k =
    ground (arith, chunks_from-asked size (size - 1) (x ∷ []) item_ids k)

-- Every chunk has at most `size` identifiers, and an identifier is in some chunk exactly if it is
-- among those that were asked for.
pub chunks_lem :
    (size : ℕ) (item_ids : List Text)
    → 1 ≤ size
    → All (λ c. length c ≤ size) (chunks size item_ids)
      × ((k : Text) → asked (chunks size item_ids) k ≡ contains item_ids k)
unfolding chunks
chunks_lem size [] p = (tt, chunks-asked size [])
chunks_lem size (x ∷ item_ids) p = (
  chunks_from-length size (size - 1) (x ∷ []) item_ids p (omega arith),
  chunks-asked size (x ∷ item_ids),
)

-- The object in the rows, or else in the map so far.
abbrev or_else : Option Row → Option StoredItemRecord → Option StoredItemRecord
or_else none other = other
or_else (some row) other = some (record_of row)

lookup-collect_rows :
    (out : List (Text × StoredItemRecord)) (rows : Table) (k : Text)
    → IsKeyed rows
    → lookup k (collect_rows out rows) ≡ or_else (find k rows) (lookup k out)
unfolding collect_rows find
lookup-collect_rows out [] k h = refl
lookup-collect_rows out (row ∷ rows) k (absent, h) =
    lookup-collect_rows (insert row.item_id (record_of row) out) rows k h
    ∙ elim (Bool-cases (text_eq row.item_id k)) [
      | inl e ↦
          let same = (text_eq_iff row.item_id k).0 e in
          rw (e, sym (ap (λ z. find z rows) same) ∙ absent)
            (ap (λ z. lookup z (insert row.item_id (record_of row) out)) (sym same)
              ∙ lookup-insert_same row.item_id (record_of row) out)
      | inr e ↦ rw (e, lookup-insert_other row.item_id k (record_of row) out e) refl
    ]

chunk_step :
    (found : Option Row) (p : Row → Bool) (in_chunk later : Bool) (other : Option StoredItemRecord)
    → ((row : Row) → found ≡ some row → p row ≡ in_chunk)
    → (if later then or_else found (or_else (keep p found) other) else or_else (keep p found) other)
      ≡ (if in_chunk || later then or_else found other else other)
chunk_step none p in_chunk later other h = ground arith
chunk_step (some row) p in_chunk later other h = rw (h row refl) (ground arith)

lookup-collect_chunks :
    (table : Table) (out : List (Text × StoredItemRecord)) (cs : List (List Text)) (k : Text)
    → IsKeyed table
    → lookup k (collect_chunks table out cs)
      ≡ (if asked cs k then or_else (find k table) (lookup k out) else lookup k out)
unfolding collect_chunks
lookup-collect_chunks table out [] k h = refl
lookup-collect_chunks table out (chunk ∷ cs) k h =
    let p : Row → Bool = λ row. contains chunk row.item_id in
    lookup-collect_chunks table (collect_rows out (filter p table)) cs k h
    ∙ ap (λ z. if asked cs k then or_else (find k table) z else z)
        (lookup-collect_rows out (filter p table) k (filter-IsKeyed p table h)
          ∙ ap (λ z. or_else z (lookup k out)) (find-filter p k table h))
    ∙ chunk_step (find k table) p (contains chunk k) (asked cs k) (lookup k out)
        (λ row e. ap (contains chunk) ((text_eq_iff row.item_id k).0 (find-item_id k table row e)))

-- On a table whose identifiers differ and whose times are i64 values, the map that is returned has
-- an identifier exactly if it was asked for and the table has a row of it, with the object of that
-- row, however many chunks the request is cut into.
pub get_existing_items_for_ids_lem :
    (table : Table) (item_ids : List Text) (k : Text)
    → IsValid table
    → lookup k (get_existing_items_for_ids table item_ids)
      ≡ (if contains item_ids k then Option.map record_of (find k table) else none)
unfolding get_existing_items_for_ids lookup
get_existing_items_for_ids_lem table item_ids k valid =
    lookup-collect_chunks table [] (chunks sqlite_max_variables item_ids) k valid.0
    ∙ rw (chunks-asked sqlite_max_variables item_ids k)
        (ap (λ z. if contains item_ids k then z else none) (or_else_none (find k table)))
  where
    or_else_none : (o : Option Row) → or_else o none ≡ Option.map record_of o
    or_else_none none = refl
    or_else_none (some row) = refl
