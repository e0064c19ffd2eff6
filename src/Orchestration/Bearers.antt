-- ===== src/Orchestration/Bearers.antt =====
-- What a sequence of calls leaves of the bearers of an encounter.
use aethos_linux.Base.{ℕ, ◌≡◌, refl, ap, ◌∙◌, List, [], ◌∷◌, Option, some}
use aethos_linux.Base.Text.{Text}
use aethos_linux.Orchestration.{
  BearerAdapter, TransitionReason, EncounterManager, LogEvent, observe_discovery,
  start_control_exchange, set_transfer_bearer, downgrade_transfer_bearer, record_scheduler_plan,
  record_scheduler_execution, mark_interrupted, mark_resumed, mark_transfer_completed, close,
}

-- A call of an operation of the manager.
pub data Call : Type 0 where
  observes : BearerAdapter → ℕ → Call
  starts : BearerAdapter → TransitionReason → ℕ → Call
  sets : BearerAdapter → TransitionReason → ℕ → Call
  downgrades : BearerAdapter → TransitionReason → ℕ → Call
  plans : Text → ℕ → Text → Text → ℕ → Call
  executes : Text → ℕ → ℕ → Call
  interrupts : TransitionReason → ℕ → Call
  resumes : ℕ → Call
  completes : ℕ → ℕ → Call
  closes : ℕ → Call

abbrev pub perform : EncounterManager → Call → EncounterManager × LogEvent
perform m (observes bearer at_ms) = observe_discovery m bearer at_ms
perform m (starts bearer reason at_ms) = start_control_exchange m bearer reason at_ms
perform m (sets bearer reason at_ms) = set_transfer_bearer m bearer reason at_ms
perform m (downgrades bearer reason at_ms) = downgrade_transfer_bearer m bearer reason at_ms
perform m (plans plan_id selected stop tie at_ms) =
    record_scheduler_plan m plan_id selected stop tie at_ms
perform m (executes plan_id executed at_ms) = record_scheduler_execution m plan_id executed at_ms
perform m (interrupts reason at_ms) = mark_interrupted m reason at_ms
perform m (resumes at_ms) = mark_resumed m at_ms
perform m (completes transferred at_ms) = mark_transfer_completed m transferred at_ms
perform m (closes at_ms) = close m at_ms

abbrev pub perform_all : EncounterManager → List Call → EncounterManager × List LogEvent
perform_all m [] = (m, [])
perform_all m (c ∷ calls) =
    let next = perform m c in let rest = perform_all next.0 calls in (rest.0, next.1 ∷ rest.1)

-- The transfer bearer that a call names.
abbrev pub named : Option BearerAdapter → Call → Option BearerAdapter
named bearer (sets next reason at_ms) = some next
named bearer (downgrades next reason at_ms) = some next
named bearer (observes b at_ms) = bearer
named bearer (starts b reason at_ms) = bearer
named bearer (plans plan_id selected stop tie at_ms) = bearer
named bearer (executes plan_id executed at_ms) = bearer
named bearer (interrupts reason at_ms) = bearer
named bearer (resumes at_ms) = bearer
named bearer (completes transferred at_ms) = bearer
named bearer (closes at_ms) = bearer

abbrev pub last_named : Option BearerAdapter → List Call → Option BearerAdapter
last_named bearer [] = bearer
last_named bearer (c ∷ calls) = last_named (named bearer c) calls

transfer_bearer-perform :
    (m : EncounterManager) (c : Call) → (perform m c).0.transfer_bearer ≡ named m.transfer_bearer c
unfolding observe_discovery start_control_exchange set_transfer_bearer downgrade_transfer_bearer
    record_scheduler_plan record_scheduler_execution mark_interrupted mark_resumed
    mark_transfer_completed close
transfer_bearer-perform m (observes bearer at_ms) = refl
transfer_bearer-perform m (starts bearer reason at_ms) = refl
transfer_bearer-perform m (sets bearer reason at_ms) = refl
transfer_bearer-perform m (downgrades bearer reason at_ms) = refl
transfer_bearer-perform m (plans plan_id selected stop tie at_ms) = refl
transfer_bearer-perform m (executes plan_id executed at_ms) = refl
transfer_bearer-perform m (interrupts reason at_ms) = refl
transfer_bearer-perform m (resumes at_ms) = refl
transfer_bearer-perform m (completes transferred at_ms) = refl
transfer_bearer-perform m (closes at_ms) = refl

-- After any sequence of calls, the transfer bearer is the one that the last call which sets or
-- downgrades it named, and the one from before if none did: interruption, resumption and closing
-- keep it.
pub transfer_bearer-perform_all :
    (m : EncounterManager) (calls : List Call)
    → (perform_all m calls).0.transfer_bearer ≡ last_named m.transfer_bearer calls
transfer_bearer-perform_all m [] = refl
transfer_bearer-perform_all m (c ∷ calls) =
    transfer_bearer-perform_all (perform m c).0 calls
    ∙ ap (λ b. last_named b calls) (transfer_bearer-perform m c)
