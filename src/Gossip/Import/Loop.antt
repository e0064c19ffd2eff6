-- ===== src/Gossip/Import/Loop.antt =====
-- The rounds of the loop of `import_transfer_items`.
use aethos_linux.Base.{
  ℕ, suc, ◌+◌, ◌≡◌, refl, sym, ap, ◌∙◌, true, false, ◌⊎◌, inl, inr, List, [], ◌∷◌, Option, none,
  some, ltb, All, All-append, subst, length, length-append, Bool-cases, Option-cases, arith,
}
use aethos_linux.Base.Text.{Text, message, text_eq}
use aethos_linux.Base.Result.{Result-cases}
use aethos_linux.Base.Assoc.{lookup}
use aethos_linux.Store.Types.{StoredItemRecord, ImportWriteObject}
use aethos_linux.Envelope.Build.{Crates}
use aethos_linux.Envelope.Decode.{DecodedEnvelopeV1}
use aethos_linux.Gossip.Types.{TransferObject}
use aethos_linux.Gossip.Import.{
  ImportState, reject, accept, existing_item, import_known, write_of, import_new, parse_object,
  is_expired, import_parsed, import_object, import_objects,
}

module _ (crates : Crates) (local : Text) (transport_peer session_peer : Option Text) (now_ms : ℕ)
    (existing : List (Text × StoredItemRecord)) where
  -- A round rejects the object, accepts it as one that is known with the same envelope, or accepts
  -- it as one that is new and not expired.
  abbrev pub Round : ImportState → TransferObject → ImportState → Type 0
  Round state object next =
      ((code : Text) × (reason : Text) × (next ≡ reject state object code reason))
      ⊎ (((known : StoredItemRecord) × (existing_item state.pending_new_records existing
                object.item_id
              ≡ some known)
            × (text_eq known.envelope_b64 object.envelope_b64 ≡ true)
            × (next ≡ accept state object))
          ⊎ ((parsed : DecodedEnvelopeV1) × (existing_item state.pending_new_records existing
                  object.item_id
                ≡ none)
              × (is_expired crates local transport_peer session_peer now_ms object ≡ false)
              × (next
                  ≡ import_new crates local transport_peer session_peer now_ms state object
                      parsed)))

  import_known-Round :
      (state : ImportState) (object : TransferObject) (known : StoredItemRecord)
      → existing_item state.pending_new_records existing object.item_id ≡ some known
      → Round state object (import_known state object known)
  unfolding import_known
  import_known-Round state object known found =
      elim (Bool-cases (text_eq known.envelope_b64 object.envelope_b64)) [
        | inr differs ↦ inl (
          message "ITEM_ID_MISMATCH",
          message "existing item_id maps to different envelope bytes",
          rw (differs, import_known) refl,
        )
        | inl same ↦ elim (Bool-cases (ltb object.hop_count known.hop_count)) [
          | inl regressed ↦ inl (
            message "HOP_REGRESSION",
            message "incoming hop_count regressed for known item",
            rw (same, regressed, import_known) refl,
          )
          | inr fine ↦ inr (inl (known, found, same, rw (same, fine, import_known) refl))
        ]
      ]

  import_parsed-Round :
      (state : ImportState) (object : TransferObject) (parsed : DecodedEnvelopeV1)
      → Round state object (
          import_parsed crates local transport_peer session_peer now_ms existing state object
            parsed)
  unfolding import_parsed
  import_parsed-Round state object parsed =
      elim (Bool-cases (is_expired crates local transport_peer session_peer now_ms object)) [
        | inl late ↦ inl (
          message "EXPIRED",
          message "object is expired by local clock",
          rw (late, import_parsed) refl,
        )
        | inr live ↦
            elim (Option-cases (existing_item state.pending_new_records existing object.item_id)) [
              | inl absent ↦ inr (inr (parsed, absent, live, rw (live, absent, import_parsed) refl))
              | inr (known, found) ↦
                  let same : import_parsed crates local transport_peer session_peer now_ms existing
                        state object parsed
                      ≡ import_known state object known =
                    rw (live, found, import_parsed) refl in
                  subst (Round state object) (sym same)
                    (import_known-Round state object known found)
            ]
      ]

  pub import_object-Round :
      (state : ImportState) (object : TransferObject)
      → Round state object
          (import_object crates local transport_peer session_peer now_ms existing state object)
  unfolding import_object
  import_object-Round state object =
      elim (Result-cases (parse_object crates local transport_peer session_peer now_ms object)) [
        | inr (e, failed) ↦ inl (message "MALFORMED_OBJECT", e, rw (failed, import_object) refl)
        | inl (parsed, good) ↦ rw (good, import_object) (import_parsed-Round state object parsed)
      ]

  -- Every object is accepted or rejected, once.
  abbrev pub verdicts : ImportState → ℕ
  verdicts state = length state.accepted_item_ids + length state.rejected_items

  Round-verdicts :
      (state next : ImportState) (object : TransferObject)
      → Round state object next
      → verdicts next ≡ suc (verdicts state)
  unfolding reject accept import_new
  Round-verdicts state next object (inl (code, reason, e)) =
      ap verdicts e
      ∙ omega (
        arith,
        length-append state.rejected_items
            (record { item_id = object.item_id; code = code; reason = reason } ∷ []),
      )
  Round-verdicts state next object (inr (inl (known, found, same, e))) =
      ap verdicts e ∙ omega (arith, length-append state.accepted_item_ids (object.item_id ∷ []))
  Round-verdicts state next object (inr (inr (parsed, absent, live, e))) =
      ap verdicts e ∙ omega (arith, length-append state.accepted_item_ids (object.item_id ∷ []))

  pub import_objects-verdicts :
      (state : ImportState) (objects : List TransferObject)
      → verdicts
          (import_objects crates local transport_peer session_peer now_ms existing state objects)
        ≡ verdicts state + length objects
  unfolding import_objects
  import_objects-verdicts state [] = omega arith
  import_objects-verdicts state (object ∷ objects) =
      let next =
        import_object crates local transport_peer session_peer now_ms existing state object in
      import_objects-verdicts next objects
      ∙ omega (arith, Round-verdicts state next object (import_object-Round state object))

  -- What holds of the writes of all objects holds of the pending inserts.
  Round-inserts :
      (P : ImportWriteObject → Type 0) (state next : ImportState) (object : TransferObject)
      → Round state object next
      → P (write_of crates local transport_peer session_peer now_ms object)
      → All P state.pending_new_inserts
      → All P next.pending_new_inserts
  unfolding reject accept import_new
  Round-inserts P state next object (inl (code, reason, e)) h inv =
      subst (λ s. All P s.pending_new_inserts) (sym e) inv
  Round-inserts P state next object (inr (inl (known, found, same, e))) h inv =
      subst (λ s. All P s.pending_new_inserts) (sym e) inv
  Round-inserts P state next object (inr (inr (parsed, absent, live, e))) h inv =
      subst (λ s. All P s.pending_new_inserts) (sym e)
        (All-append P state.pending_new_inserts _ inv (h, tt))

  pub import_objects-inserts :
      (P : ImportWriteObject → Type 0) (state : ImportState) (objects : List TransferObject)
      → All (λ object. P (write_of crates local transport_peer session_peer now_ms object)) objects
      → All P state.pending_new_inserts
      → All P
          (import_objects crates local transport_peer session_peer now_ms existing state
            objects).pending_new_inserts
  unfolding import_objects
  import_objects-inserts P state [] h inv = inv
  import_objects-inserts P state (object ∷ objects) (here, h) inv =
      let next =
        import_object crates local transport_peer session_peer now_ms existing state object in
      import_objects-inserts P next objects h
        (Round-inserts P state next object (import_object-Round state object) here inv)

  -- Nothing is new so far.
  abbrev pub IsQuiet : ImportState → Type 0
  IsQuiet state = (state.new_messages ≡ []) × (state.pending_new_inserts ≡ [])

  pub known_not_none :
      (pending : List (Text × ImportWriteObject)) (k : Text) (r : StoredItemRecord)
      → lookup k existing ≡ some r
      → existing_item pending existing k ≡ none
      → ⊥
  unfolding existing_item
  known_not_none pending k r found absent = elim (Option-cases (lookup k pending)) [
    | inl isnt ↦ cc (found, rw (isnt, existing_item) at absent)
    | inr (write, is) ↦ cc (rw (is, existing_item) at absent)
  ]

  Round-IsQuiet :
      (state next : ImportState) (object : TransferObject) (r : StoredItemRecord)
      → Round state object next
      → lookup object.item_id existing ≡ some r
      → IsQuiet state
      → IsQuiet next
  unfolding reject accept
  Round-IsQuiet state next object r (inl (code, reason, e)) found quiet =
      subst IsQuiet (sym e) quiet
  Round-IsQuiet state next object r (inr (inl (known, is, same, e))) found quiet =
      subst IsQuiet (sym e) quiet
  Round-IsQuiet state next object r (inr (inr (parsed, absent, live, e))) found quiet =
      absurd (known_not_none state.pending_new_records object.item_id r found absent)

  pub import_objects-IsQuiet :
      (state : ImportState) (objects : List TransferObject)
      → All (λ object. (r : StoredItemRecord) × (lookup object.item_id existing ≡ some r)) objects
      → IsQuiet state
      → IsQuiet
          (import_objects crates local transport_peer session_peer now_ms existing state objects)
  unfolding import_objects
  import_objects-IsQuiet state [] h quiet = quiet
  import_objects-IsQuiet state (object ∷ objects) ((r, found), h) quiet =
      let next =
        import_object crates local transport_peer session_peer now_ms existing state object in
      import_objects-IsQuiet next objects h
        (Round-IsQuiet state next object r (import_object-Round state object) found quiet)
