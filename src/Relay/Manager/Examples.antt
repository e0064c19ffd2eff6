-- ===== src/Relay/Manager/Examples.antt =====
-- Runs of the manager on two relays.
use aethos_linux.Base.{
  ℕ, ◌+◌, ◌%◌, ◌≤◌, ◌≡◌, ◌≢◌, ◌↔◌, refl, false, [], ◌∷◌, none, some, leb, length, get_elem?, min,
}
use aethos_linux.Base.Int.{pos, ◌≤ℤ◌}
use aethos_linux.Base.Text.{Text, codes}
use aethos_linux.Relay.Manager.{
  ManagedRelayEndpoint, RelaySessionManager, RelaySelection, default_config, select_relay,
  available_from, selection_of, mark_failure, u32_max,
}
use aethos_linux.Relay.Manager.Rotation.{select_relay-none_iff, select_relay-due}
use aethos_linux.Relay.Manager.Backoff.{mark_failure-bounded}

abbrev relay : Text → ℕ → ManagedRelayEndpoint
relay name due = record {
  relay_http = name;
  relay_ws = name;
  auth_token = none;
  health_score = pos 0;
  consecutive_failures = 0;
  next_attempt_at = due;
}

abbrev manager : RelaySessionManager
manager = record {
  config = default_config;
  relays = relay (codes "a") 50 ∷ relay (codes "b") 10 ∷ [];
  rr_cursor = 0;
}

abbrev second : RelaySelection
second = record { relay_slot = 1; relay_http = codes "b"; relay_ws = codes "b"; auth_token = none }

selects_second : (select_relay manager 20).1 ≡ some second
unfolding select_relay available_from selection_of
selects_second = refl

select_relay-none_iff_example : ((select_relay manager 20).1 ≡ none) ↔ (
    (slot : ℕ) (r : ManagedRelayEndpoint)
    → get_elem? manager.relays slot ≡ some r
    → leb r.next_attempt_at 20 ≡ false)
select_relay-none_iff_example = select_relay-none_iff manager 20

select_relay-due_example :
    (r : ManagedRelayEndpoint) × (get_elem? manager.relays 1 ≡ some r)
    × (r.next_attempt_at ≤ 20)
    × (codes "b" ≡ r.relay_ws)
    × (codes "b" ≡ r.relay_http)
    × (none ≡ r.auth_token)
    × ((select_relay manager 20).0.rr_cursor ≡ (1 + 1) % length manager.relays)
select_relay-due_example = select_relay-due manager 20 second selects_second

mark_failure-bounded_example :
    (after : ManagedRelayEndpoint) × (get_elem? (mark_failure manager 1 20).relays 1 ≡ some after)
    × (20 ≤ after.next_attempt_at)
    × (after.next_attempt_at ≤ 20 + manager.config.max_backoff)
    × (manager.config.min_health_score ≤ℤ after.health_score)
    × (after.consecutive_failures ≡ min ((relay (codes "b") 10).consecutive_failures + 1) u32_max)
    × ((other : ℕ)
        → 1 ≢ other
        → get_elem? (mark_failure manager 1 20).relays other ≡ get_elem? manager.relays other)
mark_failure-bounded_example = mark_failure-bounded manager 1 20 (relay (codes "b") 10) refl
