-- ===== src/Store/Listing.antt =====
-- What the listings of src/aethos_core/gossip_store_sqlite.rs contain.
use aethos_linux.Base.{
  ℕ, ◌≡◌, refl, sym, ap, ◌∙◌, Bool, true, false, not, inl, inr, List, [], ◌∷◌, Option, none, some,
  filter, map, All, All-map_weaken, Bool-cases, arith,
}
use aethos_linux.Base.Int.{ℤ, ltb_ℤ}
use aethos_linux.Base.Sort.{sort_by}
use aethos_linux.Base.Dedup.{IsAscending, contains-sort_by}
use aethos_linux.Base.Unique.{IsUnique, All-contains, sort_by-IsAscending}
use aethos_linux.Base.Text.{Text, text_lt, text_eq, text_eq_iff, contains}
use aethos_linux.Store.Types.{Row, Table, record_of}
use aethos_linux.Store.{find, min_expiry, is_pruned, prune_expired}
use aethos_linux.Store.Select.{eligible_item_ids, candidate, transfer_candidates_for_request}
use aethos_linux.Store.View.{IsKeyed, IsValid, find-item_id, prune_expired-IsValid, All-find}
use aethos_linux.Store.Spec.{view, spec_prune}
use aethos_linux.Store.Refine.{view-prune_expired}

abbrev pub is_some : Option Row → Bool
is_some none = false
is_some (some row) = true

contains-item_ids :
    (table : Table) (k : Text)
    → contains (map (λ row. row.item_id) table) k ≡ is_some (find k table)
unfolding contains find
contains-item_ids [] k = refl
contains-item_ids (row ∷ table) k = elim (Bool-cases (text_eq row.item_id k)) [
  | inl e ↦ rw e refl
  | inr e ↦ rw e (contains-item_ids table k)
]

item_ids-IsUnique : (table : Table) → IsKeyed table → IsUnique (map (λ row. row.item_id) table)
item_ids-IsUnique [] h = tt
item_ids-IsUnique (row ∷ table) (absent, h) =
    (contains-item_ids table row.item_id ∙ ap is_some absent, item_ids-IsUnique table h)

-- On a table whose identifiers differ and whose times are i64 values, the eligible identifiers are
-- strictly ascending, and an identifier is among them exactly if the map has it and does not drop
-- it at `now_ms`.
pub eligible_item_ids_lem :
    (table : Table) (now_ms : ℕ)
    → IsValid table
    → IsAscending (eligible_item_ids table now_ms).1
      × ((k : Text)
          → contains (eligible_item_ids table now_ms).1 k
            ≡ is_some (spec_prune now_ms (view table) k))
unfolding eligible_item_ids
eligible_item_ids_lem table now_ms valid = (
  sort_by-IsAscending (map (λ row. row.item_id) (prune_expired table now_ms))
      (item_ids-IsUnique (prune_expired table now_ms) (prune_expired-IsValid table now_ms valid).0),
  λ k.
      contains-sort_by (map (λ row. row.item_id) (prune_expired table now_ms)) k
      ∙ contains-item_ids (prune_expired table now_ms) k
      ∙ ap (λ objects. is_some (objects k)) (view-prune_expired table now_ms valid),
)

kept-ltb :
    (least : ℤ) (row : Row)
    → not (is_pruned least row) ≡ true
    → ltb_ℤ least row.expiry_unix_ms ≡ true
unfolding is_pruned
kept-ltb least row h = ground arith

All-filter_kept : (p : Row → Bool) (table : Table) → All (λ row. p row ≡ true) (filter p table)
All-filter_kept p [] = tt
All-filter_kept p (row ∷ table) = elim (Bool-cases (p row)) [
  | inl e ↦ rw (e, All) ((e, All-filter_kept p table))
  | inr e ↦ rw e (All-filter_kept p table)
]

some_of_is_some : (o : Option Row) → is_some o ≡ true → (row : Row) × (o ≡ some row)
some_of_is_some none h = cc
some_of_is_some (some row) h = (row, refl)

-- What a request finds of an identifier whose row has time left.
pub candidate-live :
    (table : Table) (now_ms : ℕ) (k : Text) (row : Row)
    → find k table ≡ some row
    → ltb_ℤ (min_expiry now_ms) row.expiry_unix_ms ≡ true
    → candidate table now_ms k ≡ some (record_of row)
unfolding candidate
candidate-live table now_ms k row found alive = rw (found, candidate) (rw alive refl)

listed-transfer :
    (table : Table) (now_ms : ℕ) (item_ids : List Text)
    → All (λ row. not (is_pruned (min_expiry now_ms) row) ≡ true) table
    → All (λ k. is_some (find k table) ≡ true) item_ids
    → map (λ r. r.item_id) (transfer_candidates_for_request table item_ids now_ms) ≡ item_ids
unfolding transfer_candidates_for_request candidate record_of
listed-transfer table now_ms [] live present = refl
listed-transfer table now_ms (k ∷ item_ids) live (here, present) =
    let found = some_of_is_some (find k table) here in
    let alive = kept-ltb (min_expiry now_ms) found.0 (All-find _ k table found.0 live found.1) in
    let same = (text_eq_iff found.0.item_id k).0 (find-item_id k table found.0 found.1) in
    rw (candidate-live table now_ms k found.0 found.1 alive, transfer_candidates_for_request)
      (λ i. same i ∷ listed-transfer table now_ms item_ids live present i)

-- On a table whose identifiers differ and whose times are i64 values, a request of the identifiers
-- that were just listed is answered with an object for each, in the order of the request.
pub eligible_item_ids-transfer_candidates :
    (table : Table) (now_ms : ℕ)
    → IsValid table
    → map
        (λ r. r.item_id)
        (transfer_candidates_for_request
          (eligible_item_ids table now_ms).0
          (eligible_item_ids table now_ms).1
          now_ms)
      ≡ (eligible_item_ids table now_ms).1
unfolding eligible_item_ids prune_expired
eligible_item_ids-transfer_candidates table now_ms valid =
    let listed = sort_by text_lt (map (λ row. row.item_id) (prune_expired table now_ms)) in
    listed-transfer (prune_expired table now_ms) now_ms listed (All-filter_kept _ table) (
      All-map_weaken (λ k. contains listed k ≡ true)
        (λ k. is_some (find k (prune_expired table now_ms)) ≡ true)
        (λ k h.
          sym (
            contains-sort_by (map (λ row. row.item_id) (prune_expired table now_ms)) k
            ∙ contains-item_ids (prune_expired table now_ms) k)
          ∙ h)
        listed (All-contains listed))
