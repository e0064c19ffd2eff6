-- ===== src/Orchestration.antt =====
-- The state machine of an encounter, src/aethos_core/encounter_orchestration.rs:
-- `EncounterManager`. An operation returns the next state and the event that it logs; the formatted
-- details of a log line are left out, but for the reason and the bearers in it.
pub mod Bearers
mod Examples
use aethos_linux.Base.{ℕ, List, [], ◌∷◌, Option, none, some}
use aethos_linux.Base.Text.{Text, message}

pub data BearerAdapter : Type 0 where
  lan_datagram relay_web_socket ble_bootstrap : BearerAdapter

pub data BearerRole : Type 0 where
  discovery_bootstrap control_exchange bulk_transfer : BearerRole

pub data EncounterLifecycleState : Type 0 where
  discovery_observed control_exchange_started transfer_planned : EncounterLifecycleState
  transfer_executing transfer_interrupted transfer_resumed : EncounterLifecycleState
  transfer_completed closed : EncounterLifecycleState

pub data TransitionReason : Type 0 where
  initial_selection ble_discovery health_upgrade health_downgrade : TransitionReason
  no_progress remote_close resume : TransitionReason

unfoldable pub as_str : EncounterLifecycleState → Text
as_str discovery_observed = message "discovery-observed"
as_str control_exchange_started = message "control-exchange-started"
as_str transfer_planned = message "transfer-planned"
as_str transfer_executing = message "transfer-executing"
as_str transfer_interrupted = message "transfer-interrupted"
as_str transfer_resumed = message "transfer-resumed"
as_str transfer_completed = message "transfer-completed"
as_str closed = message "closed"

pub record EncounterManager : Type 0 where
  pub encounter_id : Text
  pub local_wayfarer_id : Text
  pub peer_wayfarer_id : Option Text
  pub state : EncounterLifecycleState
  pub discovery_bearer : Option BearerAdapter
  pub control_bearer : Option BearerAdapter
  pub transfer_bearer : Option BearerAdapter

-- The arguments of `log_event`, and the state that it prints.
pub record LogEvent : Type 0 where
  pub event : Text
  pub role : BearerRole
  pub bearer : Option BearerAdapter
  pub at_unix_ms : ℕ
  pub logged_state : EncounterLifecycleState

abbrev pub new_manager : Text → Text → Option Text → EncounterManager
new_manager encounter_id local_wayfarer_id peer_wayfarer_id = record {
  encounter_id = encounter_id;
  local_wayfarer_id = local_wayfarer_id;
  peer_wayfarer_id = peer_wayfarer_id;
  state = discovery_observed;
  discovery_bearer = none;
  control_bearer = none;
  transfer_bearer = none;
}

-- `log_event` at the end of each operation.
abbrev pub logged :
    EncounterManager → Text → BearerRole → Option BearerAdapter → ℕ → EncounterManager × LogEvent
logged self event role bearer at_unix_ms = (
  self,
  record {
    event = event;
    role = role;
    bearer = bearer;
    at_unix_ms = at_unix_ms;
    logged_state = self.state;
  },
)

unfoldable pub observe_discovery :
    EncounterManager → BearerAdapter → ℕ → EncounterManager × LogEvent
observe_discovery self bearer observed_at_unix_ms =
    logged (record self { discovery_bearer = some bearer; state = discovery_observed })
      (message "encounter_discovery_observed") discovery_bootstrap (some bearer) observed_at_unix_ms

unfoldable pub start_control_exchange :
    EncounterManager → BearerAdapter → TransitionReason → ℕ → EncounterManager × LogEvent
start_control_exchange self bearer reason at_unix_ms =
    logged (record self { control_bearer = some bearer; state = control_exchange_started })
      (message "encounter_control_exchange_started") control_exchange (some bearer) at_unix_ms

unfoldable pub selected_event : Option BearerAdapter → Text
selected_event none = message "encounter_bearer_selected"
selected_event (some previous) = message "encounter_bearer_upgrade_applied"

unfoldable pub set_transfer_bearer :
    EncounterManager → BearerAdapter → TransitionReason → ℕ → EncounterManager × LogEvent
unfolding selected_event
set_transfer_bearer self bearer reason at_unix_ms =
    logged (record self { transfer_bearer = some bearer; state = transfer_executing })
      (selected_event self.transfer_bearer) bulk_transfer (some bearer) at_unix_ms

unfoldable pub downgrade_transfer_bearer :
    EncounterManager → BearerAdapter → TransitionReason → ℕ → EncounterManager × LogEvent
downgrade_transfer_bearer self next reason at_unix_ms =
    logged (record self { transfer_bearer = some next; state = transfer_interrupted })
      (message "encounter_bearer_downgrade_applied") bulk_transfer (some next) at_unix_ms

unfoldable pub record_scheduler_plan :
    EncounterManager → Text → ℕ → Text → Text → ℕ → EncounterManager × LogEvent
record_scheduler_plan self plan_id selected_items stop_reason tie_break_reason at_unix_ms =
    logged (record self { state = transfer_planned }) (message "encounter_scheduler_plan_emitted")
      bulk_transfer self.transfer_bearer at_unix_ms

unfoldable pub record_scheduler_execution :
    EncounterManager → Text → ℕ → ℕ → EncounterManager × LogEvent
record_scheduler_execution self plan_id executed_items at_unix_ms =
    logged (record self { state = transfer_executing })
      (message "encounter_scheduler_plan_executed") bulk_transfer self.transfer_bearer at_unix_ms

unfoldable pub mark_interrupted :
    EncounterManager → TransitionReason → ℕ → EncounterManager × LogEvent
mark_interrupted self reason at_unix_ms =
    logged (record self { state = transfer_interrupted }) (message "encounter_transfer_interrupted")
      bulk_transfer self.transfer_bearer at_unix_ms

unfoldable pub mark_resumed : EncounterManager → ℕ → EncounterManager × LogEvent
mark_resumed self at_unix_ms =
    logged (record self { state = transfer_resumed }) (message "encounter_transfer_resumed")
      bulk_transfer self.transfer_bearer at_unix_ms

unfoldable pub mark_transfer_completed : EncounterManager → ℕ → ℕ → EncounterManager × LogEvent
mark_transfer_completed self transferred_items at_unix_ms =
    logged (record self { state = transfer_completed }) (message "encounter_transfer_completed")
      bulk_transfer self.transfer_bearer at_unix_ms

unfoldable pub close : EncounterManager → ℕ → EncounterManager × LogEvent
close self at_unix_ms =
    logged (record self { state = closed }) (message "encounter_closed") control_exchange
      self.control_bearer at_unix_ms
