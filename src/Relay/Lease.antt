-- ===== src/Relay/Lease.antt =====
-- The registry of relay sessions, src/relay/client.rs: `RelaySessionLease::acquire`, `transition`
-- and its `drop`, and `relay_session_snapshot`. The registry, a global under a mutex, and the
-- attempt counter are state that the operations pass on; a time is a number of milliseconds, and
-- the log lines are left out.
pub mod World
pub mod Exclusive
pub mod Reachable
mod Examples
use aethos_linux.Base.{
  ℕ, ◌+◌, ◌-◌, ◌%◌, ◌^◌, Bool, true, false, List, [], ◌∷◌, ◌++◌, Option, none, some, ◌==◌,
  if◌then◌else◌,
}
use aethos_linux.Base.Text.{Text, codes}
use aethos_linux.Base.Result.{Result, ok, err}
use aethos_linux.Base.Assoc.{lookup, insert, remove}

pub record ActiveRelaySession : Type 0 where
  pub attempt_id : ℕ
  pub trigger : Text
  pub state : Text
  pub since : ℕ

pub record RelaySessionSnapshot : Type 0 where
  pub attempt_id : ℕ
  pub trigger : Text
  pub state : Text
  pub age_ms : ℕ

pub record RelaySessionLease : Type 0 where
  pub key : Text
  pub attempt_id : ℕ
  pub trigger : Text

-- RELAY_SESSION_REGISTRY, with the poison flag of its mutex, and RELAY_ATTEMPT_COUNTER.
pub record Registry : Type 0 where
  pub is_poisoned : Bool
  pub sessions : List (Text × ActiveRelaySession)
  pub attempt_counter : ℕ

pub data AcquireError : Type 0 where
  registry_poisoned : AcquireError
  -- The active session and its age.
  session_already_active : ActiveRelaySession → ℕ → AcquireError

unfoldable pub relay_session_key : Text → Text → Text
relay_session_key relay_ws wayfarer_id = relay_ws ++ codes "::" ++ wayfarer_id

unfoldable pub acquire :
    Registry → Text → Text → Text → ℕ → Registry × Result AcquireError RelaySessionLease
unfolding relay_session_key lookup insert
acquire registry relay_ws wayfarer_id trigger now =
    let key = relay_session_key relay_ws wayfarer_id in
    if registry.is_poisoned
    then (registry, err registry_poisoned)
    else elim (lookup key registry.sessions) [
      | some active ↦ (registry, err (session_already_active active (now - active.since)))
      | none ↦
          let attempt_id = registry.attempt_counter in
          (
            record registry {
              attempt_counter = (attempt_id + 1) % 2 ^ 64;
              sessions =
                  insert key
                    (record {
                      attempt_id = attempt_id;
                      trigger = trigger;
                      state = codes "connecting";
                      since = now;
                    })
                    registry.sessions;
            },
            ok (record { key = key; attempt_id = attempt_id; trigger = trigger }),
          )
    ]

-- The write through `get_mut`.
unfoldable pub transition_active :
    Registry → RelaySessionLease → Text → ActiveRelaySession → Registry
unfolding insert
transition_active registry self next_state active =
    if active.attempt_id == self.attempt_id
    then record registry {
      sessions = insert self.key (record active { state = next_state }) registry.sessions;
    }
    else registry

unfoldable pub transition : Registry → RelaySessionLease → Text → Registry
unfolding transition_active lookup
transition registry self next_state =
    if registry.is_poisoned then registry else elim (lookup self.key registry.sessions) [
      | none ↦ registry
      | some active ↦ transition_active registry self next_state active
    ]

-- `Drop for RelaySessionLease`
unfoldable pub drop_lease : Registry → RelaySessionLease → Registry
unfolding lookup remove
drop_lease registry self =
    if registry.is_poisoned then registry else elim (lookup self.key registry.sessions) [
      | none ↦ registry
      | some active ↦
          if active.attempt_id == self.attempt_id
          then record registry { sessions = remove self.key registry.sessions }
          else registry
    ]

unfoldable pub relay_session_snapshot : Registry → Text → Text → ℕ → Option RelaySessionSnapshot
unfolding relay_session_key lookup
relay_session_snapshot registry relay_ws wayfarer_id now =
    if registry.is_poisoned
    then none
    else elim (lookup (relay_session_key relay_ws wayfarer_id) registry.sessions) [
      | none ↦ none
      | some active ↦ some (record {
        attempt_id = active.attempt_id;
        trigger = active.trigger;
        state = active.state;
        age_ms = now - active.since;
      })
    ]
