-- ===== src/Gossip/Import/Pending.antt =====
-- What the loop of `import_transfer_items` has accepted and has to write.
use aethos_linux.Base.{
  ℕ, ◌+◌, ◌<◌, ◌≡◌, sym, ap, ◌∙◌, true, inl, inr, List, [], ◌∷◌, ◌++◌, Option, some, All,
  All-append, All-map_weaken, subst, Bool-cases, Option-cases, arith,
}
use aethos_linux.Base.Text.{Text, text_eq, text_eq_iff}
use aethos_linux.Base.Assoc.{lookup, insert, lookup-insert_other}
use aethos_linux.Store.Types.{StoredItemRecord, ImportWriteObject, Table, clock_skew_tolerance_ms}
use aethos_linux.Store.{find, insert_all}
use aethos_linux.Store.Listing.{is_some}
use aethos_linux.Store.Inserts.{find-insert_or_ignore_self, find-insert_all-some, insert_all-append}
use aethos_linux.Envelope.Build.{Crates}
use aethos_linux.Gossip.Types.{TransferObject}
use aethos_linux.Gossip.Import.{
  ImportState, reject, accept, existing_item, write_of, import_new, import_object, import_objects,
}
use aethos_linux.Gossip.Import.Loop.{Round, import_object-Round}

module _ (crates : Crates) (local : Text) (transport_peer session_peer : Option Text) (now_ms : ℕ)
    (existing : List (Text × StoredItemRecord)) where
  -- The identifiers that were accepted are in the table with the pending inserts, and so is every
  -- pending record; no pending insert is expired.
  abbrev pub IsPending : Table → ImportState → Type 0
  IsPending table state =
      All (λ k. is_some (find k (insert_all table state.pending_new_inserts)) ≡ true)
        state.accepted_item_ids
      × All (λ write. now_ms + clock_skew_tolerance_ms < write.expiry_unix_ms)
          state.pending_new_inserts
      × ((k : Text) (write : ImportWriteObject)
          → lookup k state.pending_new_records ≡ some write
          → is_some (find k (insert_all table state.pending_new_inserts)) ≡ true)

  module _ (table : Table)
      (stored : (k : Text) (r : StoredItemRecord)
        → lookup k existing ≡ some r
        → is_some (find k table) ≡ true) where
    there-insert_all :
        (t : Table) (writes : List ImportWriteObject) (k : Text)
        → is_some (find k t) ≡ true
        → is_some (find k (insert_all t writes)) ≡ true
    there-insert_all t writes k h = elim (Option-cases (find k t)) [
      | inl absent ↦ cc (rw absent at h)
      | inr (row, found) ↦ ap is_some (find-insert_all-some t writes k row found)
    ]

    known-there :
        (state : ImportState) (k : Text) (known : StoredItemRecord)
        → IsPending table state
        → existing_item state.pending_new_records existing k ≡ some known
        → is_some (find k (insert_all table state.pending_new_inserts)) ≡ true
    unfolding existing_item
    known-there state k known (accepted, live, pending) found =
        elim (Option-cases (lookup k state.pending_new_records)) [
          | inr (write, is) ↦ pending k write is
          | inl isnt ↦
              there-insert_all table state.pending_new_inserts k
                (stored k known (rw (isnt, existing_item) at found))
        ]

    -- One more insert.
    there-more :
        (writes : List ImportWriteObject) (write : ImportWriteObject) (k : Text)
        → is_some (find k (insert_all table writes)) ≡ true
        → is_some (find k (insert_all table (writes ++ write ∷ []))) ≡ true
    there-more writes write k h =
        rw (insert_all-append table writes (write ∷ []))
          (there-insert_all (insert_all table writes) (write ∷ []) k h)

    there_self :
        (writes : List ImportWriteObject) (write : ImportWriteObject)
        → is_some (find write.item_id (insert_all table (writes ++ write ∷ []))) ≡ true
    unfolding insert_all
    there_self writes write =
        rw (insert_all-append table writes (write ∷ []))
          (find-insert_or_ignore_self (insert_all table writes) write)

    Round-IsPending :
        (state next : ImportState) (object : TransferObject)
        → Round crates local transport_peer session_peer now_ms existing state object next
        → IsPending table state
        → IsPending table next
    unfolding reject accept import_new insert lookup
    Round-IsPending state next object (inl (code, reason, e)) inv =
        subst (IsPending table) (sym e) inv
    Round-IsPending state next object (inr (inl (known, found, same, e))) inv =
        subst (IsPending table) (sym e) (
          All-append _ state.accepted_item_ids (object.item_id ∷ []) inv.0
              (known-there state object.item_id known inv found, tt),
          inv.1,
          inv.2,
        )
    Round-IsPending state next object (inr (inr (parsed, absent, live, e))) inv =
        subst (IsPending table) (sym e) (
          let write = write_of crates local transport_peer session_peer now_ms object in
          let writes = state.pending_new_inserts in
          (
            All-append _ state.accepted_item_ids (object.item_id ∷ [])
                (All-map_weaken (λ k. is_some (find k (insert_all table writes)) ≡ true)
                  (λ k. is_some (find k (insert_all table (writes ++ write ∷ []))) ≡ true)
                  (λ k h. there-more writes write k h) state.accepted_item_ids inv.0)
                (there_self writes write, tt),
            All-append _ writes (write ∷ []) inv.1 (ground (arith, live), tt),
            λ k w found. elim (Bool-cases (text_eq object.item_id k)) [
              | inl same ↦
                  subst (λ z. is_some (find z (insert_all table (writes ++ write ∷ []))) ≡ true)
                    ((text_eq_iff object.item_id k).0 same) (there_self writes write)
              | inr differs ↦ there-more writes write k (
                  inv.2 k w (
                    sym
                      (lookup-insert_other object.item_id k write state.pending_new_records differs)
                    ∙ found))
            ],
          ))

    pub import_objects-IsPending :
        (state : ImportState) (objects : List TransferObject)
        → IsPending table state
        → IsPending table
            (import_objects crates local transport_peer session_peer now_ms existing state objects)
    unfolding import_objects
    import_objects-IsPending state [] inv = inv
    import_objects-IsPending state (object ∷ objects) inv =
        let next =
          import_object crates local transport_peer session_peer now_ms existing state object in
        import_objects-IsPending next objects (
          Round-IsPending state next object
            (import_object-Round crates local transport_peer session_peer now_ms existing state
              object)
            inv)
