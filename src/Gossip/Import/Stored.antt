-- ===== src/Gossip/Import/Stored.antt =====
-- What `import_transfer_items` leaves in the store.
use aethos_linux.Base.{
  ℕ, ◌+◌, ◌<◌, ◌^◌, ◌≡◌, refl, sym, ap, ◌∙◌, subst, true, false, not, ◌||◌, inl, inr, List, [], ◌∷◌,
  Option, none, some, map, All, All-map_weaken, length, Bool-cases, Option-cases, arith,
}
use mathlib.Core.Option
use aethos_linux.Base.Int.{pos, as_i64, as_i64-pos, leb_ℤ}
use aethos_linux.Base.Text.{Text, text_eq, text_eq_refl, text_eq_iff, contains}
use aethos_linux.Base.Assoc.{lookup}
use aethos_linux.Store.Types.{
  StoredItemRecord, ImportWriteObject, Row, Table, row_of, record_of, clock_skew_tolerance_ms,
}
use aethos_linux.Store.{find, min_expiry, is_pruned, prune_expired, insert_all, insert_import_items}
use aethos_linux.Store.Select.{get_existing_items_for_ids}
use aethos_linux.Store.View.{IsValid, find-filter}
use aethos_linux.Store.Refine.{view-insert_all}
use aethos_linux.Store.Listing.{is_some}
use aethos_linux.Store.Existing.{get_existing_items_for_ids_lem}
use aethos_linux.Store.Inserts.{row_of_write, find-insert_all_new}
use aethos_linux.Store.Expiry.{min_expiry-pos}
use aethos_linux.Envelope.Build.{Crates}
use aethos_linux.Gossip.Types.{TransferObject}
use aethos_linux.Gossip.Import.{ImportTransferResult, initial, final_state, import_transfer_items}
use aethos_linux.Gossip.Import.Loop.{
  import_objects-verdicts, import_objects-inserts, import_objects-IsQuiet,
}
use aethos_linux.Gossip.Import.Pending.{import_objects-IsPending}

is_pruned-row :
    (now_ms expiry : ℕ) (row : Row)
    → row.expiry_unix_ms ≡ as_i64 expiry
    → text_eq row.envelope_b64 [] ≡ false
    → expiry < 2 ^ 63
    → now_ms + clock_skew_tolerance_ms < expiry
    → is_pruned (min_expiry now_ms) row ≡ false
unfolding is_pruned
is_pruned-row now_ms expiry row column nonempty small live =
    rw (nonempty, min_expiry-pos now_ms (omega arith))
      (ap (λ z. leb_ℤ z (pos (now_ms + clock_skew_tolerance_ms)) || false)
          (column ∙ as_i64-pos expiry small)
        ∙ ground arith)

some_of_is_some : (o : Option Row) → is_some o ≡ true → (row : Row) × (o ≡ some row)
some_of_is_some none h = cc
some_of_is_some (some row) h = (row, refl)

All-contains_elim :
    (P : Text → Type 0) (xs : List Text) (k : Text) → All P xs → contains xs k ≡ true → P k
unfolding contains
All-contains_elim P [] k h e = cc
All-contains_elim P (x ∷ xs) k (hx, h) e = elim (Bool-cases (text_eq x k)) [
  | inl same ↦ subst P ((text_eq_iff x k).0 same) hx
  | inr differs ↦ All-contains_elim P xs k h (rw (differs, contains) at e)
]

All-contains_of :
    (objects : List TransferObject)
    → All (λ object. contains (map (λ o. o.item_id) objects) object.item_id ≡ true) objects
unfolding contains
All-contains_of [] = tt
All-contains_of (object ∷ objects) = (
  rw (text_eq_refl object.item_id) refl,
  All-map_weaken (λ o. contains (map (λ o. o.item_id) objects) o.item_id ≡ true)
      (λ o.
        (text_eq object.item_id o.item_id || contains (map (λ o. o.item_id) objects) o.item_id)
        ≡ true)
      (λ o h. ground (arith, h)) objects (All-contains_of objects),
)

module _ (crates : Crates) (local : Text) (transport_peer session_peer : Option Text) (now_ms : ℕ)
    (table : Table) (objects : List TransferObject) where
  abbrev outcome : Table × ImportTransferResult
  outcome = import_transfer_items crates local transport_peer session_peer now_ms table objects

  abbrev item_ids : List Text
  item_ids = map (λ object. object.item_id) objects

  abbrev existing : List (Text × StoredItemRecord)
  existing = get_existing_items_for_ids table item_ids

  -- The accepted identifiers and the rejected items are together as many as the objects.
  pub import_transfer_items-verdicts :
      length outcome.1.accepted_item_ids + length outcome.1.rejected_items ≡ length objects
  unfolding import_transfer_items final_state
  import_transfer_items-verdicts =
      import_objects-verdicts crates local transport_peer session_peer now_ms existing initial
        objects
      ∙ omega arith

  -- What the query found is in the table.
  existing-stored :
      IsValid table
      → (k : Text) (r : StoredItemRecord) → lookup k existing ≡ some r
      → is_some (find k table) ≡ true
  existing-stored valid k r found =
      let is = sym (get_existing_items_for_ids_lem table item_ids k valid) ∙ found in
      elim (Option-cases (find k table)) [
        | inr (row, there) ↦ rw there refl
        | inl absent ↦ elim (Bool-cases (contains item_ids k)) [
          | inl asked ↦ cc (rw absent at (rw asked at is))
          | inr unasked ↦ cc (rw unasked at is)
        ]
      ]

  writes-kept :
      (inserts : List ImportWriteObject)
      → All (λ w. now_ms + clock_skew_tolerance_ms < w.expiry_unix_ms) inserts
      → All (λ w. (w.expiry_unix_ms < 2 ^ 63) × (text_eq w.envelope_b64 [] ≡ false)) inserts
      → All (λ w. is_pruned (min_expiry now_ms) (row_of_write w) ≡ false) inserts
  unfolding row_of
  writes-kept [] live fine = tt
  writes-kept (w ∷ inserts) (l, live) ((small, nonempty), fine) = (
    is_pruned-row now_ms w.expiry_unix_ms (row_of_write w) refl nonempty small l,
    writes-kept inserts live fine,
  )

  All-found :
      IsValid table
      → All (λ object. is_some (find object.item_id table) ≡ true) objects
      → All (λ object. (r : StoredItemRecord) × (lookup object.item_id existing ≡ some r)) objects
  All-found valid known = go objects known (All-contains_of objects)
    where
      go :
          (rest : List TransferObject)
          → All (λ object. is_some (find object.item_id table) ≡ true) rest
          → All (λ object. contains item_ids object.item_id ≡ true) rest
          → All (λ object. (r : StoredItemRecord) × (lookup object.item_id existing ≡ some r)) rest
      go [] h asked = tt
      go (object ∷ rest) (here, h) (a, asked) =
          let there = some_of_is_some (find object.item_id table) here in
          (
            (
              record_of there.0,
              get_existing_items_for_ids_lem table item_ids object.item_id valid
                  ∙ rw a (ap (Option.map record_of) there.1),
            ),
            go rest h asked,
          )

  -- On a table whose identifiers differ and whose times are i64 values, where every object has an
  -- expiry below 2 ^ 63 and an envelope that is not empty, an accepted identifier that the table
  -- did not have is in the table that the import leaves.
  pub import_transfer_items-stored :
      IsValid table
      → All
          (λ object. (object.expiry_unix_ms < 2 ^ 63) × (text_eq object.envelope_b64 [] ≡ false))
          objects
      → (k : Text) → contains outcome.1.accepted_item_ids k ≡ true
      → find k table ≡ none
      → is_some (find k outcome.0) ≡ true
  unfolding import_transfer_items final_state insert_import_items prune_expired
  import_transfer_items-stored valid fine k accepted absent =
      let state = final_state crates local transport_peer session_peer now_ms table objects in
      let pending =
        import_objects-IsPending crates local transport_peer session_peer now_ms existing table
          (existing-stored valid) initial objects (tt, tt, λ k w found. cc found) in
      let writes =
        import_objects-inserts crates local transport_peer session_peer now_ms existing
          (λ w. (w.expiry_unix_ms < 2 ^ 63) × (text_eq w.envelope_b64 [] ≡ false)) initial objects
          fine tt in
      let inserts = state.pending_new_inserts in
      let there = some_of_is_some (find k (insert_all table inserts)) (
        All-contains_elim (λ z. is_some (find z (insert_all table inserts)) ≡ true)
          state.accepted_item_ids k pending.0 accepted) in
      let kept =
        find-insert_all_new (λ row. is_pruned (min_expiry now_ms) row ≡ false) table inserts k
          there.0 absent (writes-kept inserts pending.1 writes) there.1 in
      ap is_some (
        find-filter (λ row. not (is_pruned (min_expiry now_ms) row)) k (insert_all table inserts)
          (view-insert_all table inserts valid).1.0)
      ∙ rw there.1 (rw kept refl)

  -- On a table whose identifiers differ and whose times are i64 values, an import of objects whose
  -- identifiers the table all has makes no message and writes nothing: what is left is the table
  -- without what has expired.
  pub import_transfer_items-known :
      IsValid table
      → All (λ object. is_some (find object.item_id table) ≡ true) objects
      → (outcome.1.new_messages ≡ []) × (outcome.0 ≡ prune_expired table now_ms)
  unfolding import_transfer_items final_state insert_import_items insert_all
  import_transfer_items-known valid known =
      let quiet =
        import_objects-IsQuiet crates local transport_peer session_peer now_ms existing initial
          objects (All-found valid known) (refl, refl) in
      (quiet.0, ap (λ writes. prune_expired (insert_all table writes) now_ms) quiet.1)
