-- ===== src/Relay/Manager/Backoff.antt =====
-- What a failure does to a relay.
use aethos_linux.Base.{
  ℕ, ◌+◌, ◌≤◌, ◌≡◌, refl, some, arith, get_elem?, set, get_elem?-set_self, get_elem?-set_ne, ◌≢◌,
  min,
}
use aethos_linux.Base.Int.{◌≤ℤ◌, max_ℤ, negsuc, ◌+ℤ◌, ℤ}
use aethos_linux.Relay.Manager.{
  ManagedRelayEndpoint, RelaySessionManager, RelaySessionConfig, backoff, failed_relay,
  update_relay, mark_failure, u32_max,
}
use aethos_linux.Relay.Manager.Rotation.{get_elem?-lt}

backoff-le : (config : RelaySessionConfig) (n : ℕ) → backoff config n ≤ config.max_backoff
unfolding backoff
backoff-le config n = omega arith

max_ℤ-le : (a b : ℤ) → b ≤ℤ max_ℤ a b
max_ℤ-le a b = ground arith

mark_failure_self :
    (self : RelaySessionManager) (slot now : ℕ) {relay : ManagedRelayEndpoint}
    → get_elem? self.relays slot ≡ some relay
    → mark_failure self slot now
      ≡ record self { relays = set self.relays slot (failed_relay self.config now relay) }
unfolding mark_failure update_relay
mark_failure_self self slot now e = rw (e, mark_failure, update_relay) refl

-- After a failure the relay waits, from the present time on, at most the greatest backoff; its
-- health score is not below the least, and its failures are counted up to the greatest u32. The
-- other relays stay as they are.
pub mark_failure-bounded :
    (self : RelaySessionManager) (slot now : ℕ) (before : ManagedRelayEndpoint)
    → get_elem? self.relays slot ≡ some before
    → (after : ManagedRelayEndpoint) × (get_elem? (mark_failure self slot now).relays slot
        ≡ some after)
      × (now ≤ after.next_attempt_at)
      × (after.next_attempt_at ≤ now + self.config.max_backoff)
      × (self.config.min_health_score ≤ℤ after.health_score)
      × (after.consecutive_failures ≡ min (before.consecutive_failures + 1) u32_max)
      × ((other : ℕ)
          → slot ≢ other
          → get_elem? (mark_failure self slot now).relays other ≡ get_elem? self.relays other)
unfolding failed_relay
mark_failure-bounded self slot now before e =
    let failed = mark_failure_self self slot now e in
    rw failed (
      failed_relay self.config now before,
      get_elem?-set_self self.relays slot _ (get_elem?-lt self.relays slot e),
      omega arith,
      omega (arith, backoff-le self.config (min (before.consecutive_failures + 1) u32_max)),
      max_ℤ-le (before.health_score +ℤ negsuc 0) self.config.min_health_score,
      refl,
      λ other d. get_elem?-set_ne self.relays slot other _ d,
    )
