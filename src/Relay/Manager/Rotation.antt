-- ===== src/Relay/Manager/Rotation.antt =====
-- Which relay `select_relay` selects.
use native.Mathlib.Nat.{mod-lt, mod-add-mod}
use aethos_linux.Base.{
  ℕ, zero, suc, ◌+◌, ◌-◌, ◌%◌, ◌≤◌, ◌<◌, ◌≡◌, refl, sym, ap, ◌∙◌, subst, ◌↔◌, true, false, inl, inr,
  List, [], ◌∷◌, none, some, arith, leb, length, get_elem?, Option-cases, Bool-cases,
}
use mathlib.Core.Option.{some_inj}
use aethos_linux.Base.Modular.{distance-mod}
use aethos_linux.Relay.Manager.{
  ManagedRelayEndpoint, RelaySessionManager, RelaySelection, available_from, selection_of,
  select_relay,
}

zero_add : (a : ℕ) → a ≡ 0 + a
zero_add a = omega arith

add_zero : (a : ℕ) → a + 0 ≡ a
add_zero a = omega arith

add_suc : (a b : ℕ) → a + suc b ≡ suc a + b
add_suc a b = omega arith

module _ (relays : List ManagedRelayEndpoint) (rr_cursor now : ℕ) where
  found :
      (offset count : ℕ) (r : ManagedRelayEndpoint)
      → get_elem? relays ((rr_cursor + offset) % length relays) ≡ some r
      → leb r.next_attempt_at now ≡ true
      → available_from relays rr_cursor now offset (suc count) ≡ none
      → ⊥
  unfolding available_from
  found offset count r h a = rw (h, available_from) (rw a (λ e. cc))

  later :
      (offset count : ℕ)
      → available_from relays rr_cursor now offset (suc count) ≡ none
      → available_from relays rr_cursor now (suc offset) count ≡ none
  unfolding available_from
  later offset count =
      elim (Option-cases (get_elem? relays ((rr_cursor + offset) % length relays))) [
        | inl h ↦ rw (h, available_from) (λ e. e)
        | inr (r, h) ↦ elim (Bool-cases (leb r.next_attempt_at now)) [
          | inl a ↦ rw (h, available_from) (rw a (λ e. cc))
          | inr a ↦ rw (h, available_from) (rw a (λ e. e))
        ]
      ]

  available_from-none :
      (offset count o : ℕ) (r : ManagedRelayEndpoint)
      → available_from relays rr_cursor now offset count ≡ none
      → o < count
      → get_elem? relays ((rr_cursor + (offset + o)) % length relays) ≡ some r
      → leb r.next_attempt_at now ≡ false
  unfolding available_from
  available_from-none offset zero o r e h f = absurd (omega arith)
  available_from-none offset (suc count) zero r e h f =
      let here : get_elem? relays ((rr_cursor + offset) % length relays) ≡ some r =
        subst (λ z. get_elem? relays ((rr_cursor + z) % length relays) ≡ some r) (add_zero offset)
          f in
      elim (Bool-cases (leb r.next_attempt_at now)) [
        | inl a ↦ absurd (found offset count r here a e)
        | inr a ↦ a
      ]
  available_from-none offset (suc count) (suc o) r e h f =
      available_from-none (suc offset) count o r (later offset count e) (omega arith) (
        subst (λ z. get_elem? relays ((rr_cursor + z) % length relays) ≡ some r) (add_suc offset o)
          f)

  -- What the loop finds may be tried.
  available_from-some :
      (offset count : ℕ) {idx : ℕ}
      → available_from relays rr_cursor now offset count ≡ some idx
      → (r : ManagedRelayEndpoint) × (get_elem? relays idx ≡ some r)
        × (leb r.next_attempt_at now ≡ true)
  unfolding available_from
  available_from-some offset zero = λ e. cc
  available_from-some offset (suc count) =
      let place = (rr_cursor + offset) % length relays in
      elim (Option-cases (get_elem? relays place)) [
        | inl h ↦ rw (h, available_from) (available_from-some (suc offset) count)
        | inr (r, h) ↦ elim (Bool-cases (leb r.next_attempt_at now)) [
          | inl a ↦
              rw (h, available_from)
                (rw a (λ e. (r, subst (λ z. get_elem? relays z ≡ some r) (some_inj.0 e) h, a)))
          | inr a ↦ rw (h, available_from) (rw a (available_from-some (suc offset) count))
        ]
      ]

pub get_elem?-lt :
    (xs : List ManagedRelayEndpoint) (j : ℕ) {x : ManagedRelayEndpoint}
    → get_elem? xs j ≡ some x
    → j < length xs
get_elem?-lt [] j e = cc
get_elem?-lt (y ∷ xs) zero e = omega arith
get_elem?-lt (y ∷ xs) (suc j) e = omega (arith, get_elem?-lt xs j e)

select_relay_found :
    (self : RelaySessionManager) (now : ℕ) {idx : ℕ} {r : ManagedRelayEndpoint}
    → available_from self.relays self.rr_cursor now 0 (length self.relays) ≡ some idx
    → get_elem? self.relays idx ≡ some r
    → select_relay self now ≡ (
      record self { rr_cursor = (idx + 1) % length self.relays },
      some (record {
        relay_slot = idx;
        relay_http = r.relay_http;
        relay_ws = r.relay_ws;
        auth_token = r.auth_token;
      }),
    )
unfolding select_relay selection_of
select_relay_found self now e f = rw (e, select_relay) (rw (f, selection_of) refl)

select_relay_exhausted :
    (self : RelaySessionManager) (now : ℕ)
    → available_from self.relays self.rr_cursor now 0 (length self.relays) ≡ none
    → select_relay self now ≡ (self, none)
unfolding select_relay
select_relay_exhausted self now e = rw (e, select_relay) refl

-- The offset at which the loop meets a slot.
meets : (n rr_cursor slot : ℕ) → slot < n → (rr_cursor + (slot + n - rr_cursor % n) % n) % n ≡ slot
meets n rr_cursor slot h =
    sym (mod-add-mod rr_cursor n ((slot + n - rr_cursor % n) % n))
    ∙ distance-mod (rr_cursor % n) slot n h (mod-lt rr_cursor (omega arith))

-- `select_relay` selects no relay exactly when each relay's next attempt lies ahead.
pub select_relay-none_iff :
    (self : RelaySessionManager) (now : ℕ)
    → ((select_relay self now).1 ≡ none) ↔ (
        (slot : ℕ) (r : ManagedRelayEndpoint)
        → get_elem? self.relays slot ≡ some r
        → leb r.next_attempt_at now ≡ false)
select_relay-none_iff self now =
    elim (Option-cases (available_from self.relays self.rr_cursor now 0 (length self.relays))) [
      | inl e ↦ (
        λ h slot r f.
            let n = length self.relays in
            let inside = get_elem?-lt self.relays slot f in
            available_from-none self.relays self.rr_cursor now 0 n
              ((slot + n - self.rr_cursor % n) % n) r e (mod-lt _ (omega arith))
              (subst (λ z. get_elem? self.relays z ≡ some r)
                (sym (
                  ap (λ o. (self.rr_cursor + o) % n) (sym (zero_add _))
                  ∙ meets n self.rr_cursor slot inside))
                f),
        λ h. ap (λ o. o.1) (select_relay_exhausted self now e),
      )
      | inr (idx, e) ↦
          let (r, f, a) = available_from-some self.relays self.rr_cursor now 0 _ e in
          (λ h. cc (h, ap (λ o. o.1) (select_relay_found self now e f)), λ h. cc (a, h idx r f))
    ]

-- What `select_relay` selects is a relay of the manager whose next attempt is due, with its
-- endpoints and its token, and the next search starts behind it.
pub select_relay-due :
    (self : RelaySessionManager) (now : ℕ) (s : RelaySelection)
    → (select_relay self now).1 ≡ some s
    → (r : ManagedRelayEndpoint) × (get_elem? self.relays s.relay_slot ≡ some r)
      × (r.next_attempt_at ≤ now)
      × (s.relay_ws ≡ r.relay_ws)
      × (s.relay_http ≡ r.relay_http)
      × (s.auth_token ≡ r.auth_token)
      × ((select_relay self now).0.rr_cursor ≡ (s.relay_slot + 1) % length self.relays)
select_relay-due self now s h =
    elim (Option-cases (available_from self.relays self.rr_cursor now 0 (length self.relays))) [
      | inl e ↦ cc (h, ap (λ o. o.1) (select_relay_exhausted self now e))
      | inr (idx, e) ↦
          let (r, f, a) = available_from-some self.relays self.rr_cursor now 0 _ e in
          let out = select_relay_found self now e f in
          let same = some_inj.0 (sym (ap (λ o. o.1) out) ∙ h) in
          (
            r,
            subst (λ z. get_elem? self.relays z ≡ some r) (ap (λ s. s.relay_slot) same) f,
            leb_le _ _ a,
            sym (ap (λ s. s.relay_ws) same),
            sym (ap (λ s. s.relay_http) same),
            sym (ap (λ s. s.auth_token) same),
            ap (λ o. o.0.rr_cursor) out
                ∙ ap (λ z. (z + 1) % length self.relays) (ap (λ s. s.relay_slot) same),
          )
    ]
  where
    leb_le : (a b : ℕ) → leb a b ≡ true → a ≤ b
    leb_le a b h = ground arith
