-- ===== src/Gossip/Transfer/Legacy.antt =====
-- The legacy plan against the check that the receiver makes, src/aethos_core/gossip_sync.rs.
use aethos_linux.Base.{
  ℕ, ◌+◌, ◌<◌, ◌≤◌, ◌≡◌, refl, subst, false, inl, inr, List, [], ◌∷◌, ◌++◌, some, map, leb, ltb,
  ◌||◌, length, length-append, min, saturating_add, u64_max, Bool-cases, Option-cases, arith,
}
use aethos_linux.Base.Text.{Text}
use aethos_linux.Base.Result.{Result, ok, >>=-eq-ok}
use aethos_linux.Store.Types.{StoredItemRecord}
use aethos_linux.Envelope.Build.{Crates}
use aethos_linux.Gossip.Types.{TransferObject, max_transfer_items, max_transfer_bytes}
use aethos_linux.Gossip.Validate.{validate_transfer}
use aethos_linux.Gossip.Validate.Transfer.{decoded_bytes, validate_transfer-ok_iff}
use aethos_linux.Gossip.Transfer.{
  LegacySelection, LegacyTransferPlan, LegacyPlannerStopReason, completed, budget_items_exhausted,
  budget_bytes_exhausted, transfer_object, legacy_from, build_legacy_transfer_plan,
}

module _ (crates : Crates) where
  abbrev total : List TransferObject → ℕ
  total objects = decoded_bytes crates.base64_decode objects

  total-append : (xs ys : List TransferObject) → total (xs ++ ys) ≡ total xs + total ys
  total-append [] ys = omega arith
  total-append (x ∷ xs) ys = omega (arith, total-append xs ys)

  -- Within both limits.
  abbrev Fits : ℕ → ℕ → List TransferObject → Type 0
  Fits max_items max_bytes selected =
      (length selected ≤ min max_items max_transfer_items) × (total selected ≤ max_bytes)

  -- Where the loop stops.
  stopped :
      (max_items max_bytes : ℕ) (selected : List TransferObject) (consumed : ℕ)
      (reason : LegacyPlannerStopReason) (plan : LegacySelection)
      → total selected ≡ consumed
      → Fits max_items max_bytes selected
      → ◌≡◌ {A = Result Text LegacySelection}
          (ok (record { selected = selected; consumed_bytes = consumed; stop_reason = reason }))
          (ok plan)
      → Fits max_items max_bytes plan.selected × (total plan.selected ≡ plan.consumed_bytes)
  stopped max_items max_bytes selected consumed reason plan sum fits e =
      subst (λ p. Fits max_items max_bytes p.selected × (total p.selected ≡ p.consumed_bytes))
        (ok_injective e) (fits, sum)
    where
      ok_injective :
          {a b : LegacySelection} → ◌≡◌ {A = Result Text LegacySelection} (ok a) (ok b) → a ≡ b
      ok_injective e = cc

  -- One more object.
  one_more :
      (max_items max_bytes : ℕ) (selected : List TransferObject) (consumed : ℕ)
      (stored : StoredItemRecord) (raw : Text)
      → max_bytes ≤ max_transfer_bytes
      → total selected ≡ consumed
      → (leb max_items (length selected) || leb max_transfer_items (length selected)) ≡ false
      → crates.base64_decode stored.envelope_b64 ≡ some raw
      → ltb max_bytes (saturating_add consumed (length raw)) ≡ false
      → (total (selected ++ transfer_object stored ∷ []) ≡ saturating_add consumed (length raw))
        × Fits max_items max_bytes (selected ++ transfer_object stored ∷ [])
  unfolding saturating_add transfer_object
  one_more max_items max_bytes selected consumed stored raw cap sum few good within =
      let added : total (transfer_object stored ∷ []) ≡ length raw = rw good (omega arith) in
      let sized = length-append selected (transfer_object stored ∷ []) in
      let totals = total-append selected (transfer_object stored ∷ []) in
      let bounds = limits few within in (omega arith, (omega arith, omega arith))
    where
      limits :
          (leb max_items (length selected) || leb max_transfer_items (length selected)) ≡ false
          → ltb max_bytes (min (consumed + length raw) u64_max) ≡ false
          → (length selected < max_items)
            × (length selected < max_transfer_items)
            × (min (consumed + length raw) u64_max ≤ max_bytes)
      limits few within = ground (arith, few, within)

  legacy_from-Fits :
      (max_items max_bytes : ℕ) (selected : List TransferObject) (consumed : ℕ)
      (candidates : List StoredItemRecord) (plan : LegacySelection)
      → max_bytes ≤ max_transfer_bytes
      → total selected ≡ consumed
      → Fits max_items max_bytes selected
      → legacy_from crates max_items max_bytes selected consumed candidates ≡ ok plan
      → Fits max_items max_bytes plan.selected × (total plan.selected ≡ plan.consumed_bytes)
  unfolding legacy_from
  legacy_from-Fits max_items max_bytes selected consumed [] plan cap sum fits h =
      stopped max_items max_bytes selected consumed completed plan sum fits h
  legacy_from-Fits max_items max_bytes selected consumed (stored ∷ rest) plan cap sum fits h =
      elim (Bool-cases
        (leb max_items (length selected) || leb max_transfer_items (length selected))) [
          | inl full ↦
              stopped max_items max_bytes selected consumed budget_items_exhausted plan sum fits
                (rw (full, legacy_from) at h)
          | inr few ↦ elim (Option-cases (crates.base64_decode stored.envelope_b64)) [
            | inl bad ↦ cc (rw (few, bad, legacy_from) at h)
            | inr (raw, good) ↦
                elim (Bool-cases (ltb max_bytes (saturating_add consumed (length raw)))) [
                  | inl over ↦
                      stopped max_items max_bytes selected consumed budget_bytes_exhausted plan sum
                        fits (rw (few, good, over, legacy_from) at h)
                  | inr within ↦
                      let more =
                        one_more max_items max_bytes selected consumed stored raw cap sum few good
                          within in
                      legacy_from-Fits max_items max_bytes (selected ++ transfer_object stored ∷ [])
                        (saturating_add consumed (length raw)) rest plan cap more.0 more.1
                        (rw (few, good, within, legacy_from) at h)
                ]
          ]
        ]

  -- A TRANSFER frame of a legacy plan has at most `max_items` objects, it passes the receiver's
  -- check, and the plan's count of bytes is that of the frame's decoded envelopes.
  pub build_legacy_transfer_plan-validate_transfer :
      (candidates : List StoredItemRecord) (max_items max_bytes : ℕ) (plan : LegacyTransferPlan)
      → build_legacy_transfer_plan crates candidates max_items max_bytes ≡ ok plan
      → (validate_transfer crates.sha256 crates.base64_decode (record { objects = plan.selected })
          ≡ ok tt)
        × (length plan.selected ≤ max_items)
        × (decoded_bytes crates.base64_decode plan.selected ≡ plan.consumed_bytes)
  unfolding build_legacy_transfer_plan
  build_legacy_transfer_plan-validate_transfer candidates max_items max_bytes plan h =
      let made : LegacySelection → LegacyTransferPlan = λ chosen. record {
        selected = chosen.selected;
        consumed_bytes = chosen.consumed_bytes;
        stop_reason = chosen.stop_reason;
        ranking_order = map (λ stored. stored.item_id) candidates;
      } in
      let chosen =
        >>=-eq-ok (legacy_from crates max_items (min max_bytes max_transfer_bytes) [] 0 candidates)
          (λ chosen. ok (made chosen)) h in
      let within =
        subst
          (λ p.
            Fits max_items (min max_bytes max_transfer_bytes) p.selected
            × (total p.selected ≡ p.consumed_bytes))
          (plan_injective chosen.2)
          (legacy_from-Fits max_items (min max_bytes max_transfer_bytes) [] 0 candidates chosen.0
            (omega arith) refl (omega arith, omega arith) chosen.1) in
      let fits = within.0 in
      (
        (validate_transfer-ok_iff crates.sha256 crates.base64_decode
              (record { objects = plan.selected })).1
            (omega (arith, fits.0), omega (arith, fits.1)),
        omega (arith, fits.0),
        within.1,
      )
    where
      plan_injective :
          {a b : LegacyTransferPlan}
          → ◌≡◌ {A = Result Text LegacyTransferPlan} (ok a) (ok b)
          → a ≡ b
      plan_injective e = cc
