-- ===== src/Gossip/Import/Forgets.antt =====
-- An object that the store knows is accepted by `import_transfer_items` of
-- src/aethos_core/gossip_sync.rs without a change of its row.
use mathlib.Core.Option
use aethos_linux.Base.{
  ℕ, ◌≡◌, refl, sym, ap, ◌∙◌, subst, true, false, not, inl, inr, List, [], ◌∷◌, ◌++◌, Option, none,
  some, ltb, map, arith, Bool-cases,
}
use aethos_linux.Base.Text.{Text, text_eq, text_eq_refl, text_eq_iff, contains}
use aethos_linux.Base.Result.{ok}
use aethos_linux.Base.Assoc.{lookup, insert, lookup-insert_other}
use aethos_linux.Store.Types.{StoredItemRecord, Row, Table, record_of}
use aethos_linux.Store.{find, min_expiry, is_pruned, prune_expired, insert_all, insert_import_items}
use aethos_linux.Store.Select.{get_existing_items_for_ids}
use aethos_linux.Store.View.{IsValid, find-filter}
use aethos_linux.Store.Existing.{get_existing_items_for_ids_lem, contains-append}
use aethos_linux.Store.Inserts.{find-insert_all-some}
use aethos_linux.Store.Refine.{view-insert_all}
use aethos_linux.Envelope.Build.{Crates}
use aethos_linux.Envelope.Decode.{DecodedEnvelopeV1}
use aethos_linux.Gossip.Types.{TransferObject}
use aethos_linux.Gossip.Import.{
  ImportState, ImportTransferResult, initial, reject, accept, existing_item, import_known,
  import_new, parse_object, is_expired, write_of, import_parsed, import_object, import_objects,
  final_state, import_transfer_items,
}
use aethos_linux.Gossip.Import.Loop.{Round, import_object-Round, known_not_none}

module _ (crates : Crates) (local : Text) (transport_peer session_peer : Option Text) (now_ms : ℕ)
    (existing : List (Text × StoredItemRecord)) where
  abbrev import_all : ImportState → List TransferObject → ImportState
  import_all = import_objects crates local transport_peer session_peer now_ms existing

  abbrev import_one : ImportState → TransferObject → ImportState
  import_one = import_object crates local transport_peer session_peer now_ms existing

  import_objects-append :
      (state : ImportState) (before after : List TransferObject)
      → import_all state (before ++ after) ≡ import_all (import_all state before) after
  unfolding import_objects
  import_objects-append state [] after = refl
  import_objects-append state (object ∷ before) after =
      import_objects-append (import_one state object) before after

  -- What was accepted stays accepted.
  Round-accepted :
      (k : Text) (state next : ImportState) (object : TransferObject)
      → Round crates local transport_peer session_peer now_ms existing state object next
      → contains state.accepted_item_ids k ≡ true
      → contains next.accepted_item_ids k ≡ true
  unfolding reject accept import_new
  Round-accepted k state next object (inl (code, reason, e)) h =
      subst (λ s. contains s.accepted_item_ids k ≡ true) (sym e) h
  Round-accepted k state next object (inr (inl (known, found, same, e))) h =
      subst (λ s. contains s.accepted_item_ids k ≡ true) (sym e)
        (contains-append state.accepted_item_ids (object.item_id ∷ []) k ∙ rw h refl)
  Round-accepted k state next object (inr (inr (parsed, absent, live, e))) h =
      subst (λ s. contains s.accepted_item_ids k ≡ true) (sym e)
        (contains-append state.accepted_item_ids (object.item_id ∷ []) k ∙ rw h refl)

  import_objects-accepted :
      (k : Text) (state : ImportState) (objects : List TransferObject)
      → contains state.accepted_item_ids k ≡ true
      → contains (import_all state objects).accepted_item_ids k ≡ true
  unfolding import_objects
  import_objects-accepted k state [] h = h
  import_objects-accepted k state (object ∷ objects) h =
      import_objects-accepted k (import_one state object) objects (
        Round-accepted k state (import_one state object) object
          (import_object-Round crates local transport_peer session_peer now_ms existing state
            object)
          h)

  -- An identifier that the query found is never pending.
  Round-pending :
      (k : Text) (r : StoredItemRecord) (state next : ImportState) (object : TransferObject)
      → lookup k existing ≡ some r
      → Round crates local transport_peer session_peer now_ms existing state object next
      → lookup k state.pending_new_records ≡ none
      → lookup k next.pending_new_records ≡ none
  unfolding reject accept import_new insert lookup
  Round-pending k r state next object found (inl (code, reason, e)) h =
      subst (λ s. lookup k s.pending_new_records ≡ none) (sym e) h
  Round-pending k r state next object found (inr (inl (known, is, same, e))) h =
      subst (λ s. lookup k s.pending_new_records ≡ none) (sym e) h
  Round-pending k r state next object found (inr (inr (parsed, absent, live, e))) h =
      elim (Bool-cases (text_eq object.item_id k)) [
        | inl same ↦ absurd (
            known_not_none crates local transport_peer session_peer now_ms existing
              state.pending_new_records object.item_id r
              (ap (λ z. lookup z existing) ((text_eq_iff object.item_id k).0 same) ∙ found) absent)
        | inr differs ↦
            subst (λ s. lookup k s.pending_new_records ≡ none) (sym e)
              (lookup-insert_other object.item_id k
                  (write_of crates local transport_peer session_peer now_ms object)
                  state.pending_new_records differs
                ∙ h)
      ]

  import_objects-pending :
      (k : Text) (r : StoredItemRecord) (state : ImportState) (objects : List TransferObject)
      → lookup k existing ≡ some r
      → lookup k state.pending_new_records ≡ none
      → lookup k (import_all state objects).pending_new_records ≡ none
  unfolding import_objects
  import_objects-pending k r state [] found h = h
  import_objects-pending k r state (object ∷ objects) found h =
      import_objects-pending k r (import_one state object) objects found (
        Round-pending k r state (import_one state object) object found
          (import_object-Round crates local transport_peer session_peer now_ms existing state
            object)
          h)

  import_object-accept :
      (state : ImportState) (object : TransferObject) (stored : StoredItemRecord)
      (parsed : DecodedEnvelopeV1)
      → lookup object.item_id existing ≡ some stored
      → lookup object.item_id state.pending_new_records ≡ none
      → text_eq stored.envelope_b64 object.envelope_b64 ≡ true
      → ltb object.hop_count stored.hop_count ≡ false
      → parse_object crates local transport_peer session_peer now_ms object ≡ ok parsed
      → is_expired crates local transport_peer session_peer now_ms object ≡ false
      → import_one state object ≡ accept state object
  unfolding import_object import_parsed import_known existing_item
  import_object-accept state object stored parsed found fresh same hops good live =
      rw (good, import_object)
        (rw (live, import_parsed)
          (rw (fresh, existing_item) (rw found (rw (same, hops, import_known) refl))))

module _ (crates : Crates) (local : Text) (transport_peer session_peer : Option Text) (now_ms : ℕ)
    (table : Table) (before : List TransferObject) (object : TransferObject)
    (after : List TransferObject) (row : Row) (parsed : DecodedEnvelopeV1) where
  abbrev outcome : Table × ImportTransferResult
  outcome =
      import_transfer_items crates local transport_peer session_peer now_ms table
        (before ++ object ∷ after)

  abbrev existing : List (Text × StoredItemRecord)
  existing = get_existing_items_for_ids table (map (λ o. o.item_id) (before ++ object ∷ after))

  existing-row :
      IsValid table
      → find object.item_id table ≡ some row
      → lookup object.item_id existing ≡ some (record_of row)
  unfolding contains
  existing-row valid found =
      get_existing_items_for_ids_lem table (map (λ o. o.item_id) (before ++ object ∷ after))
        object.item_id valid
      ∙ rw (asked before) (ap (Option.map record_of) found)
    where
      asked :
          (l : List TransferObject)
          → contains (map (λ o. o.item_id) (l ++ object ∷ after)) object.item_id ≡ true
      asked [] = rw (text_eq_refl object.item_id) refl
      asked (o ∷ l) = ground (arith, asked l)

  import_transfer_items-accepts :
      IsValid table
      → find object.item_id table ≡ some row
      → text_eq row.envelope_b64 object.envelope_b64 ≡ true
      → ltb object.hop_count (record_of row).hop_count ≡ false
      → parse_object crates local transport_peer session_peer now_ms object ≡ ok parsed
      → is_expired crates local transport_peer session_peer now_ms object ≡ false
      → contains outcome.1.accepted_item_ids object.item_id ≡ true
  unfolding import_transfer_items final_state import_objects accept contains record_of lookup
  import_transfer_items-accepts valid found same hops good live =
      let import_all = import_objects crates local transport_peer session_peer now_ms existing in
      let start = import_all initial before in
      let there = existing-row valid found in
      let fresh =
        import_objects-pending crates local transport_peer session_peer now_ms existing
          object.item_id (record_of row) initial before there refl in
      let accepted =
        import_object-accept crates local transport_peer session_peer now_ms existing start object
          (record_of row) parsed there fresh same hops good live in
      ap (λ s. contains s.accepted_item_ids object.item_id)
        (import_objects-append crates local transport_peer session_peer now_ms existing initial
          before (object ∷ after))
      ∙ ap (λ s. contains (import_all s after).accepted_item_ids object.item_id) accepted
      ∙ import_objects-accepted crates local transport_peer session_peer now_ms existing
          object.item_id (accept start object) after
          (contains-append start.accepted_item_ids (object.item_id ∷ []) object.item_id
            ∙ ground (arith, text_eq_refl object.item_id))

  -- An import of any objects into a table whose identifiers differ and whose times are i64 values,
  -- where one of the objects is valid and not expired, and the table has a row of its identifier
  -- with the same envelope and no larger hop count, but this row is one that `prune_expired`
  -- removes at this time: the object is accepted, and yet the table that the import leaves has no
  -- row of its identifier.
  pub import_transfer_items-forgets :
      IsValid table
      → find object.item_id table ≡ some row
      → text_eq row.envelope_b64 object.envelope_b64 ≡ true
      → ltb object.hop_count (record_of row).hop_count ≡ false
      → parse_object crates local transport_peer session_peer now_ms object ≡ ok parsed
      → is_expired crates local transport_peer session_peer now_ms object ≡ false
      → is_pruned (min_expiry now_ms) row ≡ true
      → (contains outcome.1.accepted_item_ids object.item_id ≡ true)
        × (find object.item_id outcome.0 ≡ none)
  unfolding import_transfer_items insert_import_items prune_expired
  import_transfer_items-forgets valid found same hops good live over =
      let writes =
        (final_state crates local transport_peer session_peer now_ms table
          (before ++ object ∷ after)).pending_new_inserts in
      (
        import_transfer_items-accepts valid found same hops good live,
        find-filter (λ r. not (is_pruned (min_expiry now_ms) r)) object.item_id
              (insert_all table writes) (view-insert_all table writes valid).1.0
            ∙ rw (find-insert_all-some table writes object.item_id row found) (rw over refl),
      )
