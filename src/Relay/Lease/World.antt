-- ===== src/Relay/Lease/World.antt =====
-- The registry together with the leases that threads hold, and how the events of threads change it.
use aethos_linux.Base.{
  ℕ, zero, suc, ◌≡◌, sym, ◌∙◌, subst, true, false, inl, inr, List, [], ◌∷◌, Option, none, some, map,
  get_elem?, All, Bool-cases,
}
use aethos_linux.Base.Text.{Text, contains, text_eq, text_eq_refl, text_eq_iff}
use aethos_linux.Base.Result.{Result, ok, err}
use aethos_linux.Base.Assoc.{lookup}
use aethos_linux.Relay.Lease.{
  ActiveRelaySession, AcquireError, RelaySessionLease, Registry, acquire, transition, drop_lease,
}

-- The registry, and the leases that are held.
pub record World : Type 0 where
  pub registry : Registry
  pub leases : List RelaySessionLease

-- What a thread does: it asks for a lease, or it has the lease at a place of the list change the
-- state of its session, or it drops it.
pub data Event : Type 0 where
  acquires : Text → Text → Text → ℕ → Event
  transitions : ℕ → Text → Event
  drops : ℕ → Event

abbrev pub remove_at : {A : Type 0} → ℕ → List A → List A
remove_at i [] = []
remove_at zero (x ∷ xs) = xs
remove_at (suc i) (x ∷ xs) = x ∷ remove_at i xs

abbrev pub grant : List RelaySessionLease → Registry × Result AcquireError RelaySessionLease → World
grant leases (registry, ok lease) = record { registry = registry; leases = lease ∷ leases }
grant leases (registry, err e) = record { registry = registry; leases = leases }

abbrev pub transition_held : World → Text → Option RelaySessionLease → World
transition_held w state none = w
transition_held w state (some lease) = record w { registry = transition w.registry lease state }

abbrev pub drop_held : World → ℕ → Option RelaySessionLease → World
drop_held w i none = w
drop_held w i (some lease) = record {
  registry = drop_lease w.registry lease;
  leases = remove_at i w.leases;
}

abbrev pub step : World → Event → World
step w (acquires relay_ws wayfarer_id trigger now) =
    grant w.leases (acquire w.registry relay_ws wayfarer_id trigger now)
step w (transitions i state) = transition_held w state (get_elem? w.leases i)
step w (drops i) = drop_held w i (get_elem? w.leases i)

abbrev pub run : World → List Event → World
run w [] = w
run w (e ∷ es) = run (step w e) es

abbrev pub start : World
start = record {
  registry = record { is_poisoned = false; sessions = []; attempt_counter = 1 };
  leases = [];
}

abbrev pub keys : List RelaySessionLease → List Text
keys = map (λ l. l.key)

abbrev pub AreDistinct : List Text → Type 0
AreDistinct [] = Unit
AreDistinct (k ∷ ks) = (contains ks k ≡ false) × AreDistinct ks

abbrev pub Held : List (Text × ActiveRelaySession) → RelaySessionLease → Type 0
Held sessions lease =
    (active : ActiveRelaySession) × (lookup lease.key sessions ≡ some active)
    × (active.attempt_id ≡ lease.attempt_id)

pub record IsConsistent (w : World) : Type 0 where
  pub unpoisoned : w.registry.is_poisoned ≡ false
  pub held : All (Held w.registry.sessions) w.leases
  pub distinct : AreDistinct (keys w.leases)
  pub free : (k : Text) → contains (keys w.leases) k ≡ false → lookup k w.registry.sessions ≡ none

pub Held-agrees :
    (sessions sessions' : List (Text × ActiveRelaySession)) (lease : RelaySessionLease)
    → lookup lease.key sessions' ≡ lookup lease.key sessions
    → Held sessions lease
    → Held sessions' lease
Held-agrees sessions sessions' lease same (active, e, n) = (active, same ∙ e, n)

pub text_eq_sym : (a b : Text) → text_eq a b ≡ false → text_eq b a ≡ false
text_eq_sym a b h = elim (Bool-cases (text_eq b a)) [
  | inl e ↦ absurd (
      false_true
        (sym h ∙ subst (λ z. text_eq a z ≡ true) (sym ((text_eq_iff b a).0 e)) (text_eq_refl a)))
  | inr e ↦ e
]
  where
    false_true : false ≡ true → ⊥
    false_true e = cc
