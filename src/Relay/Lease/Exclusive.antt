-- ===== src/Relay/Lease/Exclusive.antt =====
-- Acquiring a lease and changing its state, with other leases held.
use aethos_linux.Base.{
  ℕ, zero, suc, ◌+◌, ◌-◌, ◌%◌, ◌^◌, ◌≡◌, refl, sym, ap, ◌∙◌, subst, true, false, inl, inr, List, [],
  ◌∷◌, none, some, arith, ==_iff, get_elem?, All, Bool-cases, Option-cases,
}
use mathlib.Core.Option.{some_inj}
use aethos_linux.Base.Text.{Text, codes, contains, text_eq, text_eq_iff}
use aethos_linux.Base.Result.{ok, err}
use aethos_linux.Base.Assoc.{
  lookup, insert, remove, lookup-remove_other, lookup-insert_same, lookup-insert_other,
}
use aethos_linux.Relay.Lease.{
  ActiveRelaySession, session_already_active, RelaySessionLease, Registry, relay_session_key,
  acquire, transition, transition_active,
}
use aethos_linux.Relay.Lease.World.{
  World, acquires, step, keys, Held, IsConsistent, Held-agrees, text_eq_sym,
}

module _ (key : Text) where
  pub Held-insert :
      (active : ActiveRelaySession) (sessions : List (Text × ActiveRelaySession))
      (leases : List RelaySessionLease)
      → contains (keys leases) key ≡ false
      → All (Held sessions) leases
      → All (Held (insert key active sessions)) leases
  unfolding contains
  Held-insert active sessions [] h held = tt
  Held-insert active sessions (l ∷ leases) h held = (
    Held-agrees sessions _ l
        (lookup-insert_other key l.key active sessions (text_eq_sym l.key key (ground arith)))
        held.0,
    Held-insert active sessions leases (ground arith) held.1,
  )

  pub Held-remove :
      (sessions : List (Text × ActiveRelaySession)) (leases : List RelaySessionLease)
      → contains (keys leases) key ≡ false
      → All (Held sessions) leases
      → All (Held (remove key sessions)) leases
  unfolding contains
  Held-remove sessions [] h held = tt
  Held-remove sessions (l ∷ leases) h held = (
    Held-agrees sessions _ l
        (lookup-remove_other key l.key sessions (text_eq_sym l.key key (ground arith))) held.0,
    Held-remove sessions leases (ground arith) held.1,
  )

pub acquire_taken :
    (r : Registry) (relay_ws wayfarer_id trigger : Text) (now : ℕ) {active : ActiveRelaySession}
    → r.is_poisoned ≡ false
    → lookup (relay_session_key relay_ws wayfarer_id) r.sessions ≡ some active
    → acquire r relay_ws wayfarer_id trigger now
      ≡ (r, err (session_already_active active (now - active.since)))
unfolding acquire
acquire_taken r relay_ws wayfarer_id trigger now p e = simp (p, e) refl

abbrev pub granted : Registry → Text → Text → ℕ → Registry
granted r key trigger now = record r {
  attempt_counter = (r.attempt_counter + 1) % 2 ^ 64;
  sessions =
      insert key
        (record {
          attempt_id = r.attempt_counter;
          trigger = trigger;
          state = codes "connecting";
          since = now;
        })
        r.sessions;
}

pub acquire_free :
    (r : Registry) (relay_ws wayfarer_id trigger : Text) (now : ℕ)
    → r.is_poisoned ≡ false
    → lookup (relay_session_key relay_ws wayfarer_id) r.sessions ≡ none
    → acquire r relay_ws wayfarer_id trigger now ≡ (
      granted r (relay_session_key relay_ws wayfarer_id) trigger now,
      ok (record {
        key = relay_session_key relay_ws wayfarer_id;
        attempt_id = r.attempt_counter;
        trigger = trigger;
      }),
    )
unfolding acquire
acquire_free r relay_ws wayfarer_id trigger now p e = simp (p, e) refl

-- A session in the registry is one of the leases'.
pub contains_active :
    (w : World) (k : Text) {active : ActiveRelaySession}
    → IsConsistent w
    → lookup k w.registry.sessions ≡ some active
    → contains (keys w.leases) k ≡ true
contains_active w k c e = elim (Bool-cases (contains (keys w.leases) k)) [
  | inl h ↦ h
  | inr h ↦ cc (e, c.free k h)
]

pub not-contains_free :
    (k : Text) (sessions : List (Text × ActiveRelaySession)) (leases : List RelaySessionLease)
    → lookup k sessions ≡ none
    → All (Held sessions) leases
    → contains (keys leases) k ≡ false
unfolding contains
not-contains_free k sessions [] e held = refl
not-contains_free k sessions (l ∷ leases) e ((active, found, n), held) =
    elim (Bool-cases (text_eq l.key k)) [
      | inl h ↦
          cc (e, subst (λ z. lookup z sessions ≡ some active) ((text_eq_iff l.key k).0 h) found)
      | inr h ↦ ground (arith, not-contains_free k sessions leases e held)
    ]

pub granted_free :
    (w : World) (key k : Text) (active : ActiveRelaySession)
    → IsConsistent w
    → contains (key ∷ keys w.leases) k ≡ false
    → lookup k (insert key active w.registry.sessions) ≡ none
unfolding contains
granted_free w key k active c h =
    lookup-insert_other key k active w.registry.sessions (ground arith) ∙ c.free k (ground arith)

pub acquires-IsConsistent :
    (w : World) (relay_ws wayfarer_id trigger : Text) (now : ℕ)
    → IsConsistent w
    → IsConsistent (step w (acquires relay_ws wayfarer_id trigger now))
acquires-IsConsistent w relay_ws wayfarer_id trigger now c =
    let key = relay_session_key relay_ws wayfarer_id in
    elim (Option-cases (lookup key w.registry.sessions)) [
      | inl e ↦
          let new = not-contains_free key w.registry.sessions w.leases e c.held in
          rw (acquire_free w.registry relay_ws wayfarer_id trigger now c.unpoisoned e) (record {
            unpoisoned = c.unpoisoned;
            held = (
              (_, lookup-insert_same key _ w.registry.sessions, refl),
              Held-insert key _ w.registry.sessions w.leases new c.held,
            );
            distinct = (new, c.distinct);
            free = λ k h. granted_free w key k _ c h;
          })
      | inr (active, e) ↦
          rw (acquire_taken w.registry relay_ws wayfarer_id trigger now c.unpoisoned e) c
    ]

-- What the lease at a place of the list holds.
pub Held-get_elem? :
    (sessions : List (Text × ActiveRelaySession)) (leases : List RelaySessionLease) (i : ℕ)
    {lease : RelaySessionLease}
    → get_elem? leases i ≡ some lease
    → All (Held sessions) leases
    → Held sessions lease
Held-get_elem? sessions [] i e held = cc
Held-get_elem? sessions (l ∷ leases) zero e held = subst (Held sessions) (some_inj.0 e) held.0
Held-get_elem? sessions (l ∷ leases) (suc i) e held = Held-get_elem? sessions leases i e held.1

pub contains-get_elem? :
    (k : Text) (leases : List RelaySessionLease) (i : ℕ) {lease : RelaySessionLease}
    → get_elem? leases i ≡ some lease
    → contains (keys leases) k ≡ false
    → text_eq lease.key k ≡ false
unfolding contains
contains-get_elem? k [] i e h = cc
contains-get_elem? k (l ∷ leases) zero e h =
    subst (λ z. text_eq z.key k ≡ false) (some_inj.0 e) (ground arith)
contains-get_elem? k (l ∷ leases) (suc i) e h = contains-get_elem? k leases i e (ground arith)

pub transition_holds :
    (r : Registry) (lease : RelaySessionLease) (state : Text) {active : ActiveRelaySession}
    → r.is_poisoned ≡ false
    → lookup lease.key r.sessions ≡ some active
    → active.attempt_id ≡ lease.attempt_id
    → transition r lease state
      ≡ record r { sessions = insert lease.key (record active { state = state }) r.sessions }
unfolding transition transition_active
transition_holds r lease state p e n = simp (p, e, (==_iff _ _).1 n) refl

pub Held-update :
    (lease : RelaySessionLease) (active : ActiveRelaySession) (state : Text)
    (sessions : List (Text × ActiveRelaySession)) (leases : List RelaySessionLease)
    → lookup lease.key sessions ≡ some active
    → All (Held sessions) leases
    → All (Held (insert lease.key (record active { state = state }) sessions)) leases
Held-update lease active state sessions [] e held = tt
Held-update lease active state sessions (l ∷ leases) e ((other, found, n), held) = (
  elim (Bool-cases (text_eq lease.key l.key)) [
    | inl same ↦
        let k = (text_eq_iff lease.key l.key).0 same in
        let here = subst (λ z. lookup z sessions ≡ some active) k e in
        let match = ap (λ a. a.attempt_id) (some_inj.0 (sym here ∙ found)) in
        (
          record active { state = state },
          subst
              (λ z.
                lookup z (insert lease.key (record active { state = state }) sessions)
                ≡ some (record active { state = state }))
              k (lookup-insert_same lease.key _ sessions),
          match ∙ n,
        )
    | inr differ ↦
        Held-agrees sessions _ l (lookup-insert_other lease.key l.key _ sessions differ)
          (other, found, n)
  ],
  Held-update lease active state sessions leases e held,
)
