-- ===== src/Relay/Lease/Reachable.antt =====
-- The registry and the leases after any run.
use aethos_linux.Base.{
  ℕ, zero, suc, ◌≡◌, refl, sym, ap, ◌∙◌, subst, ◌↔◌, false, inl, inr, List, [], ◌∷◌, none, some,
  arith, ==_iff, get_elem?, All, Bool-cases, Option-cases,
}
use mathlib.Core.Option.{some_inj}
use aethos_linux.Base.Text.{Text, contains, text_eq, text_eq_iff}
use aethos_linux.Base.Result.{ok}
use aethos_linux.Base.Assoc.{
  lookup, remove, lookup-remove_same, lookup-remove_other, lookup-insert_other,
}
use aethos_linux.Relay.Lease.{
  ActiveRelaySession, RelaySessionLease, Registry, relay_session_key, acquire, drop_lease,
}
use aethos_linux.Relay.Lease.World.{
  World, Event, acquires, transitions, drops, step, run, start, keys, remove_at, AreDistinct,
  IsConsistent, text_eq_sym,
}
use aethos_linux.Relay.Lease.Exclusive.{
  Held-remove, Held-get_elem?, Held-update, contains-get_elem?, transition_holds,
  acquires-IsConsistent, acquire_free, acquire_taken, not-contains_free,
}

transitions-IsConsistent :
    (w : World) (i : ℕ) (state : Text)
    → IsConsistent w
    → IsConsistent (step w (transitions i state))
transitions-IsConsistent w i state c = elim (Option-cases (get_elem? w.leases i)) [
  | inl e ↦ rw e c
  | inr (lease, e) ↦
      let (active, found, n) = Held-get_elem? w.registry.sessions w.leases i e c.held in
      rw (e, transition_holds w.registry lease state c.unpoisoned found n)
        (record {
          unpoisoned = c.unpoisoned;
          held = Held-update lease active state w.registry.sessions w.leases found c.held;
          distinct = c.distinct;
          free = λ k h.
              lookup-insert_other lease.key k _ w.registry.sessions
                (contains-get_elem? k w.leases i e h)
              ∙ c.free k h;
        })
]

drop_lease_holds :
    (r : Registry) (lease : RelaySessionLease) {active : ActiveRelaySession}
    → r.is_poisoned ≡ false
    → lookup lease.key r.sessions ≡ some active
    → active.attempt_id ≡ lease.attempt_id
    → drop_lease r lease ≡ record r { sessions = remove lease.key r.sessions }
unfolding drop_lease
drop_lease_holds r lease p e n = simp (p, e, (==_iff _ _).1 n) refl

contains-remove_at :
    (k : Text) (leases : List RelaySessionLease) (i : ℕ)
    → contains (keys leases) k ≡ false
    → contains (keys (remove_at i leases)) k ≡ false
unfolding contains
contains-remove_at k [] i h = refl
contains-remove_at k (l ∷ leases) zero h = ground arith
contains-remove_at k (l ∷ leases) (suc i) h =
    ground (arith, contains-remove_at k leases i (ground arith))

AreDistinct-remove_at :
    (leases : List RelaySessionLease) (i : ℕ)
    → AreDistinct (keys leases)
    → AreDistinct (keys (remove_at i leases))
AreDistinct-remove_at [] i h = tt
AreDistinct-remove_at (l ∷ leases) zero h = h.1
AreDistinct-remove_at (l ∷ leases) (suc i) h =
    (contains-remove_at l.key leases i h.0, AreDistinct-remove_at leases i h.1)

-- The key of the lease that is removed is not left among the keys.
contains-removed :
    (leases : List RelaySessionLease) (i : ℕ) {lease : RelaySessionLease}
    → get_elem? leases i ≡ some lease
    → AreDistinct (keys leases)
    → contains (keys (remove_at i leases)) lease.key ≡ false
unfolding contains
contains-removed [] i e h = cc
contains-removed (l ∷ leases) zero e h =
    subst (λ z. contains (keys leases) z.key ≡ false) (some_inj.0 e) h.0
contains-removed (l ∷ leases) (suc i) {lease} e h = ground (
  arith,
  contains-removed leases i e h.1,
  text_eq_sym lease.key l.key (contains-get_elem? l.key leases i e h.0),
)

-- A key that is left out, but for the removed one, was not there.
contains-kept :
    (k : Text) (leases : List RelaySessionLease) (i : ℕ) {lease : RelaySessionLease}
    → get_elem? leases i ≡ some lease
    → text_eq lease.key k ≡ false
    → contains (keys (remove_at i leases)) k ≡ false
    → contains (keys leases) k ≡ false
unfolding contains
contains-kept k [] i e d h = refl
contains-kept k (l ∷ leases) zero e d h =
    rw (subst (λ z. text_eq z.key k ≡ false) (sym (some_inj.0 e)) d) h
contains-kept k (l ∷ leases) (suc i) e d h =
    ground (arith, contains-kept k leases i e d (ground arith))

All-remove_at :
    {A : Type 0} (P : A → Type 0) (xs : List A) (i : ℕ) → All P xs → All P (remove_at i xs)
All-remove_at P [] i h = tt
All-remove_at P (x ∷ xs) zero h = h.1
All-remove_at P (x ∷ xs) (suc i) h = (h.0, All-remove_at P xs i h.1)

drops_free :
    (w : World) (i : ℕ) (lease : RelaySessionLease)
    → IsConsistent w
    → get_elem? w.leases i ≡ some lease
    → (k : Text) → contains (keys (remove_at i w.leases)) k ≡ false
    → lookup k (remove lease.key w.registry.sessions) ≡ none
drops_free w i lease c e k h = elim (Bool-cases (text_eq lease.key k)) [
  | inl same ↦
      subst (λ z. lookup z (remove lease.key w.registry.sessions) ≡ none)
        ((text_eq_iff lease.key k).0 same) (lookup-remove_same lease.key w.registry.sessions)
  | inr differ ↦
      lookup-remove_other lease.key k w.registry.sessions differ
      ∙ c.free k (contains-kept k w.leases i e differ h)
]

drops-IsConsistent : (w : World) (i : ℕ) → IsConsistent w → IsConsistent (step w (drops i))
drops-IsConsistent w i c = elim (Option-cases (get_elem? w.leases i)) [
  | inl e ↦ rw e c
  | inr (lease, e) ↦
      let (active, found, n) = Held-get_elem? w.registry.sessions w.leases i e c.held in
      rw (e, drop_lease_holds w.registry lease c.unpoisoned found n)
        (record {
          unpoisoned = c.unpoisoned;
          held =
              Held-remove lease.key w.registry.sessions (remove_at i w.leases)
                (contains-removed w.leases i e c.distinct) (All-remove_at _ w.leases i c.held);
          distinct = AreDistinct-remove_at w.leases i c.distinct;
          free = drops_free w i lease c e;
        })
]

step-IsConsistent : (w : World) (e : Event) → IsConsistent w → IsConsistent (step w e)
step-IsConsistent w (acquires relay_ws wayfarer_id trigger now) c =
    acquires-IsConsistent w relay_ws wayfarer_id trigger now c
step-IsConsistent w (transitions i state) c = transitions-IsConsistent w i state c
step-IsConsistent w (drops i) c = drops-IsConsistent w i c

run-IsConsistent : (w : World) (es : List Event) → IsConsistent w → IsConsistent (run w es)
run-IsConsistent w [] c = c
run-IsConsistent w (e ∷ es) c = run-IsConsistent (step w e) es (step-IsConsistent w e c)

start-IsConsistent : IsConsistent start
unfolding lookup
start-IsConsistent = record { unpoisoned = refl; held = tt; distinct = tt; free = λ k h. refl }

-- After any sequence of attempts to acquire a lease, of transitions by held leases and of drops of
-- held leases, no two leases that are held have one key.
pub run_exclusive : (es : List Event) → AreDistinct (keys (run start es).leases)
run_exclusive es = (run-IsConsistent start es start-IsConsistent).distinct

-- After any such sequence, an attempt to acquire a lease succeeds exactly when no lease with its
-- key is held.
pub acquire-ok_iff :
    (es : List Event) (relay_ws wayfarer_id trigger : Text) (now : ℕ)
    → ((lease : RelaySessionLease) × ((acquire
            (run start es).registry
            relay_ws
            wayfarer_id
            trigger
            now).1
          ≡ ok lease))
      ↔ (contains (keys (run start es).leases) (relay_session_key relay_ws wayfarer_id) ≡ false)
acquire-ok_iff es relay_ws wayfarer_id trigger now = (
  λ (lease, e). elim (Option-cases (lookup key w.registry.sessions)) [
    | inl f ↦ not-contains_free key w.registry.sessions w.leases f c.held
    | inr (active, f) ↦ absurd (taken active f lease e)
  ],
  λ h. (
    _,
    ap (λ o. o.1)
        (acquire_free w.registry relay_ws wayfarer_id trigger now c.unpoisoned (c.free key h)),
  ),
)
  where
    w : World
    w = run start es

    c : IsConsistent w
    c = run-IsConsistent start es start-IsConsistent

    key : Text
    key = relay_session_key relay_ws wayfarer_id

    taken :
        (active : ActiveRelaySession)
        → lookup key w.registry.sessions ≡ some active
        → (lease : RelaySessionLease)
        → (acquire w.registry relay_ws wayfarer_id trigger now).1 ≡ ok lease
        → ⊥
    taken active f lease e =
        let refused =
          ap (λ o. o.1)
            (acquire_taken w.registry relay_ws wayfarer_id trigger now c.unpoisoned f) in
        cc (e, refused)
