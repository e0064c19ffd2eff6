-- ===== src/Store/Refine.antt =====
-- The transactions of src/aethos_core/gossip_store_sqlite.rs against the map of Spec.antt.
use aethos_linux.Base.{
  ==_iff, ℕ, ◌≡◌, refl, sym, ap, ◌∙◌, not, inl, inr, List, [], ◌∷◌, ◌==◌, some, max, All,
  Bool-cases, Option-cases,
}
use aethos_linux.Base.Int.{as_i64, as_u64}
use aethos_linux.Base.Text.{Text, text_eq}
use aethos_linux.Base.Result.{Result, ok}
use aethos_linux.Store.Types.{
  ImportWriteObject, RecordPutOutcome, inserted, refreshed, dedupe, Row, Table, row_of,
}
use aethos_linux.Store.{
  find, min_expiry, is_pruned, prune_expired, update_row, record_existing, record_local_item,
  insert_or_ignore, insert_all, insert_import_items,
}
use aethos_linux.Store.View.{
  IsKeyed, IsStored, IsValid, updated, find-filter, as_i64-IsI64, as_i64-as_u64, All-find,
  prune_expired-IsValid,
}
use aethos_linux.Store.Update.{update_row-IsValid, find-update_row, put_same}
use aethos_linux.Store.Spec.{
  Objects, view, put, spec_prune, merged, spec_existing, spec_record, abstraction, spec_insert,
  spec_insert_all, Transaction, records, imports, prunes, Results, spec_step, spec_run, step, run,
}

pub view-prune_expired :
    (table : Table) (now_ms : ℕ)
    → IsValid table
    → view (prune_expired table now_ms) ≡ spec_prune now_ms (view table)
unfolding prune_expired
view-prune_expired table now_ms (keyed, stored) i =
    λ k. find-filter (λ row. not (is_pruned (min_expiry now_ms) row)) k table keyed i

view-insert_or_ignore :
    (table : Table) (item : ImportWriteObject)
    → IsValid table
    → (view (insert_or_ignore table item) ≡ spec_insert (view table) item)
      × IsValid (insert_or_ignore table item)
unfolding insert_or_ignore row_of find
view-insert_or_ignore table item valid = elim (Option-cases (find item.item_id table)) [
  | inl absent ↦
      rw (absent, view, spec_insert, insert_or_ignore, IsKeyed, All)
        ((refl, ((absent, valid.0), ((as_i64-IsI64 _, as_i64-IsI64 _), valid.1))))
  | inr (row, found) ↦ rw (found, view, spec_insert, insert_or_ignore) ((refl, valid))
]

pub view-insert_all :
    (table : Table) (items : List ImportWriteObject)
    → IsValid table
    → (view (insert_all table items) ≡ spec_insert_all (view table) items)
      × IsValid (insert_all table items)
unfolding insert_all
view-insert_all table [] valid = (refl, valid)
view-insert_all table (item ∷ items) valid =
    let step = view-insert_or_ignore table item valid in
    let rest = view-insert_all (insert_or_ignore table item) items step.1 in
    (rest.0 ∙ ap (λ objects. spec_insert_all objects items) step.0, rest.1)

abbrev answer : Objects → RecordPutOutcome → Objects × Result Text RecordPutOutcome
answer objects outcome = (objects, ok outcome)

module _ (table : Table) (row : Row) (item_id envelope_b64 : Text) (expiry recorded_at : ℕ) where
  abbrev next_expiry : ℕ
  next_expiry = max (as_u64 row.expiry_unix_ms) expiry

  abbrev next_recorded_at : ℕ
  next_recorded_at = max (as_u64 row.recorded_at_unix_ms) recorded_at

  abbrev refreshed_table : Table
  refreshed_table = update_row item_id (as_i64 next_expiry) (as_i64 next_recorded_at) table

  view-refreshed :
      IsValid table
      → find item_id table ≡ some row
      → view (prune_expired refreshed_table recorded_at)
        ≡ spec_prune recorded_at (put item_id (merged row expiry recorded_at) (view table))
  view-refreshed valid found =
      view-prune_expired refreshed_table recorded_at
        (update_row-IsValid item_id next_expiry next_recorded_at table valid)
      ∙ ap (spec_prune recorded_at) (λ i k.
        find-update_row item_id (as_i64 next_expiry) (as_i64 next_recorded_at) table row k found i)

  view-unchanged :
      IsValid table
      → find item_id table ≡ some row
      → next_expiry ≡ as_u64 row.expiry_unix_ms
      → next_recorded_at ≡ as_u64 row.recorded_at_unix_ms
      → view (prune_expired table recorded_at)
        ≡ spec_prune recorded_at (put item_id (merged row expiry recorded_at) (view table))
  view-unchanged valid found e r =
      let stored = All-find IsStored item_id table row valid.1 found in
      let same = ap as_i64 e ∙ as_i64-as_u64 row.expiry_unix_ms stored.0 in
      let same_recorded = ap as_i64 r ∙ as_i64-as_u64 row.recorded_at_unix_ms stored.1 in
      view-prune_expired table recorded_at valid
      ∙ ap (spec_prune recorded_at) (λ i k.
        (sym (put_same item_id table row k found)
            ∙ ap (λ z. put item_id z (view table) k) (λ j. sym (merges same same_recorded) j))
          i)
    where
      merges :
          as_i64 next_expiry ≡ row.expiry_unix_ms
          → as_i64 next_recorded_at ≡ row.recorded_at_unix_ms
          → merged row expiry recorded_at ≡ row
      merges a b i = updated (a i) (b i) row

  record_existing_lem :
      IsValid table
      → find item_id table ≡ some row
      → (abstraction (record_existing table row item_id envelope_b64 expiry recorded_at)
          ≡ spec_existing (view table) row item_id envelope_b64 expiry recorded_at)
        × IsValid (record_existing table row item_id envelope_b64 expiry recorded_at).0
  unfolding record_existing
  record_existing_lem valid found = elim (Bool-cases (text_eq row.envelope_b64 envelope_b64)) [
    | inr other ↦ rw (other, record_existing, abstraction, spec_existing) ((refl, valid))
    | inl same ↦ elim (Bool-cases (next_expiry == as_u64 row.expiry_unix_ms)) [
      | inr later ↦
          rw (same, later, record_existing, abstraction, spec_existing) (refreshing valid found)
      | inl e ↦ elim (Bool-cases (next_recorded_at == as_u64 row.recorded_at_unix_ms)) [
        | inr later ↦
            rw (same, e, later, record_existing, abstraction, spec_existing)
              (refreshing valid found)
        | inl r ↦
            rw (same, e, r, record_existing, abstraction, spec_existing)
              ((
                ap (λ z. answer z dedupe)
                    (view-unchanged valid found ((==_iff _ _).0 e) ((==_iff _ _).0 r)),
                prune_expired-IsValid table recorded_at valid,
              ))
      ]
    ]
  ]
    where
      refreshing :
          IsValid table
          → find item_id table ≡ some row
          → (answer (view (prune_expired refreshed_table recorded_at)) (refreshed next_expiry)
              ≡ answer
                  (spec_prune recorded_at
                    (put item_id (merged row expiry recorded_at) (view table)))
                  (refreshed next_expiry))
            × IsValid (prune_expired refreshed_table recorded_at)
      refreshing valid found = (
        ap (λ z. answer z (refreshed next_expiry)) (view-refreshed valid found),
        prune_expired-IsValid refreshed_table recorded_at
            (update_row-IsValid item_id next_expiry next_recorded_at table valid),
      )

-- Recording an object is recording it in the map.
pub record_local_item_lem :
    (table : Table) (item_id envelope_b64 : Text) (expiry hop_count recorded_at : ℕ)
    → IsValid table
    → (abstraction (record_local_item table item_id envelope_b64 expiry hop_count recorded_at)
        ≡ spec_record (view table) item_id envelope_b64 expiry hop_count recorded_at)
      × IsValid (record_local_item table item_id envelope_b64 expiry hop_count recorded_at).0
unfolding record_local_item find row_of
record_local_item_lem table item_id envelope_b64 expiry hop_count recorded_at valid =
    elim (Option-cases (find item_id table)) [
      | inl absent ↦
          let row = row_of item_id envelope_b64 expiry hop_count recorded_at in
          let kept : IsValid (row ∷ table) =
            ((absent, valid.0), ((as_i64-IsI64 expiry, as_i64-IsI64 recorded_at), valid.1)) in
          rw (absent, record_local_item, abstraction, spec_record, view)
            ((
              ap (λ z. answer z inserted) (view-prune_expired (row ∷ table) recorded_at kept),
              prune_expired-IsValid (row ∷ table) recorded_at kept,
            ))
      | inr (row, found) ↦
          rw (found, record_local_item, abstraction, spec_record, view)
            (record_existing_lem table row item_id envelope_b64 expiry recorded_at valid found)
    ]

-- What a transaction does to the table and returns is what it does to the map.
pub step-refines :
    (state : Table × Results) (transaction : Transaction)
    → IsValid state.0
    → (abstraction (step state transaction) ≡ spec_step (abstraction state) transaction)
      × IsValid (step state transaction).0
unfolding insert_import_items
step-refines (table, results) (records item_id envelope_b64 expiry hop_count recorded_at) valid =
    let recorded =
      record_local_item_lem table item_id envelope_b64 expiry hop_count recorded_at valid in
    (ap (λ z. (z.0, z.1 ∷ results)) recorded.0, recorded.1)
step-refines (table, results) (imports items now_ms) valid =
    let inserted_all = view-insert_all table items valid in
    (
      ap (λ z. (z, results))
          (view-prune_expired (insert_all table items) now_ms inserted_all.1
            ∙ ap (spec_prune now_ms) inserted_all.0),
      prune_expired-IsValid (insert_all table items) now_ms inserted_all.1,
    )
step-refines (table, results) (prunes now_ms) valid = (
  ap (λ z. (z, results)) (view-prune_expired table now_ms valid),
  prune_expired-IsValid table now_ms valid,
)

-- From a table whose identifiers differ and whose times are i64 values, any sequence of
-- transactions on the SQL table leaves the map, and returns the outcomes, that the same sequence
-- has on a map from identifiers to rows, and the table has these two properties again.
pub run-refines :
    (state : Table × Results) (transactions : List Transaction)
    → IsValid state.0
    → (abstraction (run state transactions) ≡ spec_run (abstraction state) transactions)
      × IsValid (run state transactions).0
run-refines state [] valid = (refl, valid)
run-refines state (transaction ∷ rest) valid =
    let first = step-refines state transaction valid in
    let later = run-refines (step state transaction) rest first.1 in
    (later.0 ∙ ap (λ z. spec_run z rest) first.0, later.1)
