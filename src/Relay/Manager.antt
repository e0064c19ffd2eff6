-- ===== src/Relay/Manager.antt =====
-- `RelaySessionManager`, src/relay/client.rs. A time and a duration are numbers of nanoseconds, and
-- the present time is an argument where the source reads the clock. `to_ws_endpoint`, which
-- rewrites a URL, is an argument of `new_manager`.
pub mod Rotation
pub mod Backoff
mod Examples
use aethos_linux.Base.{
  ℕ, zero, suc, ◌+◌, ◌-◌, ◌*◌, ◌%◌, ◌^◌, ◌≤◌, Bool, true, false, List, [], ◌∷◌, Option, none, some,
  leb, if◌then◌else◌, length, get_elem?, set, map, min,
}
use aethos_linux.Base.Int.{ℤ, pos, negsuc, ◌+ℤ◌, min_ℤ, max_ℤ}
use aethos_linux.Base.Text.{Text}

pub record RelaySessionConfig : Type 0 where
  pub base_backoff : ℕ
  pub max_backoff : ℕ
  pub min_health_score : ℤ
  pub max_health_score : ℤ

-- `RelaySessionConfig::default`
abbrev pub default_config : RelaySessionConfig
default_config = record {
  base_backoff = 1_000_000_000;
  max_backoff = 60_000_000_000;
  min_health_score = negsuc 9;
  max_health_score = pos 10;
}

pub record ManagedRelayEndpoint : Type 0 where
  pub relay_http : Text
  pub relay_ws : Text
  pub auth_token : Option Text
  pub health_score : ℤ
  pub consecutive_failures : ℕ
  pub next_attempt_at : ℕ

pub record RelaySelection : Type 0 where
  pub relay_slot : ℕ
  pub relay_http : Text
  pub relay_ws : Text
  pub auth_token : Option Text

pub record RelaySessionManager : Type 0 where
  pub config : RelaySessionConfig
  pub relays : List ManagedRelayEndpoint
  pub rr_cursor : ℕ

abbrev pub u32_max : ℕ
u32_max = 4_294_967_295

-- The greatest `Duration`: u64::MAX seconds and 999_999_999 nanoseconds.
abbrev pub duration_max : ℕ
duration_max = 2 ^ 64 * 1_000_000_000 - 1

unfoldable pub new_manager :
    (Text → Text) → List Text → RelaySessionConfig → ℕ → RelaySessionManager
new_manager to_ws_endpoint relay_http_endpoints config now = record {
  config = config;
  rr_cursor = 0;
  relays =
      map
        (λ relay_http. record {
          relay_http = relay_http;
          relay_ws = to_ws_endpoint relay_http;
          auth_token = none;
          health_score = pos 0;
          consecutive_failures = 0;
          next_attempt_at = now;
        })
        relay_http_endpoints;
}

-- `if let Some(relay) = self.relays.get_mut(relay_slot) { ... }`
unfoldable pub update_relay :
    (ManagedRelayEndpoint → ManagedRelayEndpoint) → RelaySessionManager → ℕ → RelaySessionManager
update_relay f self relay_slot = elim (get_elem? self.relays relay_slot) [
  | none ↦ self
  | some relay ↦ record self { relays = set self.relays relay_slot (f relay) }
]

unfoldable pub set_auth_token : RelaySessionManager → ℕ → Option Text → RelaySessionManager
unfolding update_relay
set_auth_token self relay_slot auth_token =
    update_relay (λ relay. record relay { auth_token = auth_token }) self relay_slot

-- The loop over `count` offsets from `offset` on: the place of the first relay that may be tried.
unfoldable pub available_from : List ManagedRelayEndpoint → ℕ → ℕ → ℕ → ℕ → Option ℕ
available_from relays rr_cursor now offset zero = none
available_from relays rr_cursor now offset (suc count) =
    let idx = (rr_cursor + offset) % length relays in
    let rest = available_from relays rr_cursor now (suc offset) count in
    elim (get_elem? relays idx) [
      | none ↦ rest
      | some relay ↦ if leb relay.next_attempt_at now then some idx else rest
    ]

unfoldable pub selection_of : List ManagedRelayEndpoint → ℕ → Option RelaySelection
selection_of relays idx = elim (get_elem? relays idx) [
  | none ↦ none
  | some relay ↦ some (record {
    relay_slot = idx;
    relay_http = relay.relay_http;
    relay_ws = relay.relay_ws;
    auth_token = relay.auth_token;
  })
]

unfoldable pub select_relay : RelaySessionManager → ℕ → RelaySessionManager × Option RelaySelection
unfolding available_from selection_of
select_relay self now =
    elim (available_from self.relays self.rr_cursor now 0 (length self.relays)) [
      | none ↦ (self, none)
      | some idx ↦
          (record self { rr_cursor = (idx + 1) % length self.relays }, selection_of self.relays idx)
    ]

unfoldable pub mark_success : RelaySessionManager → ℕ → ℕ → RelaySessionManager
unfolding update_relay
mark_success self relay_slot now =
    update_relay
      (λ relay. record relay {
        consecutive_failures = 0;
        health_score = min_ℤ (relay.health_score +ℤ pos 1) self.config.max_health_score;
        next_attempt_at = now;
      })
      self relay_slot

-- `base_backoff.checked_mul(2_u32.saturating_pow(failures - 1)).unwrap_or(max_backoff)`, at most
-- `max_backoff`.
unfoldable pub backoff : RelaySessionConfig → ℕ → ℕ
backoff config consecutive_failures =
    let product = config.base_backoff * min (2 ^ (consecutive_failures - 1)) u32_max in
    min (if leb product duration_max then product else config.max_backoff) config.max_backoff

unfoldable pub failed_relay : RelaySessionConfig → ℕ → ManagedRelayEndpoint → ManagedRelayEndpoint
unfolding backoff
failed_relay config now relay =
    let consecutive_failures = min (relay.consecutive_failures + 1) u32_max in
    record relay {
      consecutive_failures = consecutive_failures;
      health_score = max_ℤ (relay.health_score +ℤ negsuc 0) config.min_health_score;
      next_attempt_at = now + backoff config consecutive_failures;
    }

unfoldable pub mark_failure : RelaySessionManager → ℕ → ℕ → RelaySessionManager
unfolding update_relay failed_relay
mark_failure self relay_slot now = update_relay (failed_relay self.config now) self relay_slot
