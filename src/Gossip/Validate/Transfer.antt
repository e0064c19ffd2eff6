-- ===== src/Gossip/Validate/Transfer.antt =====
-- Which transfers pass `validate_transfer`.
use aethos_linux.Base.{
  ℕ, ◌+◌, ◌≤◌, ◌<◌, ◌≡◌, ◌↔◌, refl, true, false, inl, inr, List, [], ◌∷◌, Option, none, some, arith,
  ltb, length, Option-cases, Bool-cases, saturating_add,
}
use aethos_linux.Base.Text.{Text}
use aethos_linux.Base.Result.{ok}
use aethos_linux.Gossip.Types.{
  TransferObject, TransferFrame, max_transfer_items, max_transfer_bytes,
}
use aethos_linux.Gossip.Validate.{transfer_from, validate_transfer}

module _ (base64_decode : Text → Option Text) where
  abbrev pub decoded_length : Option Text → ℕ
  decoded_length none = 0
  decoded_length (some raw) = length raw

  -- The bytes of the envelopes that decode.
  abbrev pub decoded_bytes : List TransferObject → ℕ
  decoded_bytes [] = 0
  decoded_bytes (object ∷ objects) =
      decoded_length (base64_decode object.envelope_b64) + decoded_bytes objects

ltb_lt : (a b : ℕ) → ltb a b ≡ true → a < b
ltb_lt a b h = ground arith

not-ltb_le : (a b : ℕ) → ltb a b ≡ false → b ≤ a
not-ltb_le a b h = ground arith

module _ (sha256 : Text → Text) (base64_decode : Text → Option Text) where
  transfer_from-ok_iff :
      (total : ℕ) (objects : List TransferObject)
      → total ≤ max_transfer_bytes
      → (transfer_from sha256 base64_decode total objects ≡ ok tt)
        ↔ (total + decoded_bytes base64_decode objects ≤ max_transfer_bytes)
  unfolding transfer_from saturating_add
  transfer_from-ok_iff total [] h = (λ e. omega arith, λ e. refl)
  transfer_from-ok_iff total (object ∷ objects) h =
      elim (Option-cases (base64_decode object.envelope_b64)) [
        | inl e ↦
            let later = transfer_from-ok_iff total objects h in
            rw (e, transfer_from) (λ x. omega (arith, later.0 x), λ x. later.1 (omega arith))
        | inr (raw, e) ↦
            elim (Bool-cases (ltb max_transfer_bytes (saturating_add total (length raw)))) [
              | inl over ↦
                  let past = ltb_lt _ _ over in
                  rw (e, transfer_from) (rw over (λ x. cc, λ x. absurd (omega arith)))
              | inr fits ↦
                  let room = not-ltb_le _ _ fits in
                  let later =
                    transfer_from-ok_iff (saturating_add total (length raw)) objects room in
                  rw (e, transfer_from)
                    (rw fits (λ x. omega (arith, later.0 x), λ x. later.1 (omega arith)))
            ]
      ]

  -- A transfer passes exactly when it has at most 32 objects and the envelopes of it that decode
  -- are at most 524288 bytes together.
  pub validate_transfer-ok_iff :
      (frame : TransferFrame)
      → (validate_transfer sha256 base64_decode frame ≡ ok tt) ↔ (
          (length frame.objects ≤ max_transfer_items)
          × (decoded_bytes base64_decode frame.objects ≤ max_transfer_bytes))
  unfolding validate_transfer
  validate_transfer-ok_iff frame =
      let loop = transfer_from-ok_iff 0 frame.objects (omega arith) in
      elim (Bool-cases (ltb max_transfer_items (length frame.objects))) [
        | inl many ↦ let past = ltb_lt _ _ many in rw many (λ x. cc, λ x. absurd (omega arith))
        | inr few ↦
            let fits = not-ltb_le _ _ few in
            rw few (λ x. (fits, omega (arith, loop.0 x)), λ x. loop.1 (omega arith))
      ]
