-- ===== src/Core/AgentCore/Background.antt =====
-- src/core/agentcore.ts: what runs beside the handlers of messages. Promises of the gateway settle, workers
-- stream events, timers run; a core starts and shuts down.
use roboppi.Base.{
  ℕ, ◌+◌, String, length, true, false, not, Option, none, some, List, [], ◌∷◌, ◌++◌, ◌==◌,
  if◌then◌else◌,
}
use roboppi.Base.Dict
use roboppi.Base.Dict.{Dict}
use roboppi.Types.{non_retryable, Job}
use roboppi.Core.BreakerRegistry
use roboppi.Core.BreakerRegistry.{Registry}
use roboppi.Core.PermitGate
use roboppi.Core.PermitGate.{PermitGate, Permit, PermitRejection, Clock}
use roboppi.Core.Watchdog
use roboppi.Core.Watchdog.{Watchdog}
use roboppi.Core.EscalationManager
use roboppi.Core.EscalationManager.{EscalationManager}
use roboppi.Core.Escalation.{EscalationEvent}
use roboppi.Core.JobEventThrottle
use roboppi.Core.JobEventThrottle.{JobEventThrottle, WorkerEvent}
use roboppi.Ipc.Messages.{
  failed, WorkerResult, OutboundMessage, job_completed, job_event, escalation, InboundMessage,
}
use roboppi.Core.AgentCore.{
  Stream, Delegation, AgentCore, own_listener, Outcome, forget, Env, handle,
}

-- The events that a throttle forwards, with their numbers.
unfoldable pub numbered : String → ℕ → ℕ → List WorkerEvent → List OutboundMessage
numbered job_id ts seq [] = []
numbered job_id ts seq (ev ∷ evs) = job_event job_id ts seq ev ∷ numbered job_id ts (seq + 1) evs

-- The throttle after a call, with the events that it forwards.
unfoldable pub forwarded :
    String → ℕ → Delegation → Stream → JobEventThrottle × List WorkerEvent → AgentCore → Outcome
forwarded permit_id ts d s (throttle, evs) c = (
  numbered d.job.job_id ts s.seq evs,
  record c {
    delegations =
        Dict.set permit_id
          (record d { stream = some (record { throttle = throttle; seq = s.seq + length evs }) })
          c.delegations;
  },
)

unfoldable pub forward :
    String → ℕ → JobEventThrottle.Call → Delegation → Option Stream → AgentCore → Outcome
unfolding forwarded
forward permit_id now call d none c = ([], c)
forward permit_id now call d (some s) c =
    forwarded permit_id now d s (JobEventThrottle.step call s.throttle) c

-- A call of the throttle of a task that streams: an event of the worker, or its timer.
unfoldable pub on_stream :
    String → ℕ → JobEventThrottle.Call → Option Delegation → AgentCore → Outcome
unfolding forward
on_stream permit_id now call none c = ([], c)
on_stream permit_id now call (some d) c = forward permit_id now call d d.stream c

-- `finally`: the throttle is disposed of before the job is reported.
last_events : ℕ → Delegation → Option Stream → List OutboundMessage
last_events now d none = []
last_events now d (some s) = numbered d.job.job_id now s.seq (JobEventThrottle.dispose s.throttle).1

-- How the gateway's promise settles: with a result, or with an error.
completion : Job → Option WorkerResult → OutboundMessage
completion job (some result) =
    job_completed job.job_id result.status (some result) result.error_class
completion job none = job_completed job.job_id failed none (some non_retryable)

unfoldable pub on_settled :
    String → ℕ → Option WorkerResult → Option Delegation → AgentCore → Outcome
unfolding last_events completion
on_settled permit_id now result none c = ([], c)
on_settled permit_id now result (some d) c = (
  last_events now d d.stream ++ completion d.job result ∷ [],
  forget d.job.job_id permit_id (record c { delegations = Dict.delete permit_id c.delegations }),
)

-- What the core's listener sends of the calls at an evaluation.
own_calls : List (ℕ × EscalationEvent) → List OutboundMessage
own_calls [] = []
own_calls ((listener, event) ∷ calls) =
    let rest = own_calls calls in if listener == own_listener then escalation event ∷ rest else rest

-- Each call of the watchdog's escalation callback evaluates once.
unfoldable pub evaluate_each :
    List (ℕ × String × ℕ) → ℕ → EscalationManager → List OutboundMessage × EscalationManager
unfolding own_calls
evaluate_each [] now m = ([], m)
evaluate_each ((callback, _, _) ∷ calls) now m =
    if callback == own_listener
    then (let e = EscalationManager.evaluate now m in
        let (sent, last) = evaluate_each calls now e.manager in (own_calls e.calls ++ sent, last))
    else evaluate_each calls now m

unfoldable pub on_watchdog_tick : (ℕ → Option (Dict ℕ)) → ℕ → AgentCore → Outcome
on_watchdog_tick collect now c =
    let (calls, watchdog) = Watchdog.tick collect c.watchdog in
    let (sent, escalations) = evaluate_each calls now c.escalations in
    (sent, record c { watchdog = watchdog; escalations = escalations })

-- The deadline timer of a permit.
unfoldable pub on_deadline : String → ℕ → AgentCore → AgentCore
on_deadline permit_id now c = record c { permit_gate = PermitGate.fire permit_id now c.permit_gate }

unfoldable pub start : AgentCore → AgentCore
start c = if c.started then c else record c { started = true; watchdog = Watchdog.start c.watchdog }

-- The workers are cancelled by the gateway, whose promises settle later.
unfoldable pub shutdown : AgentCore → AgentCore
shutdown c =
    if not c.started
    then c
    else (let gate = PermitGate.dispose c.permit_gate in
        record c {
          started = false;
          permit_gate = record gate {
            circuit_breakers = BreakerRegistry.dispose gate.circuit_breakers;
          };
          watchdog = Watchdog.stop c.watchdog;
        })

-- What happens to a core, and what it sends then.
pub data Event : Type 0 where
  receives : Env → InboundMessage → Event
  streams : (permit_id : String) (now : ℕ) → JobEventThrottle.Call → Event
  settles : (permit_id : String) (now : ℕ) → Option WorkerResult → Event
  watches : (ℕ → Option (Dict ℕ)) → (now : ℕ) → Event
  expires : (permit_id : String) (now : ℕ) → Event
  starts : Event
  shuts_down : Event

unfoldable pub step : Event → AgentCore → Outcome
step (receives env message) c = handle env message c
step (streams permit_id now call) c =
    on_stream permit_id now call (Dict.get permit_id c.delegations) c
step (settles permit_id now result) c =
    on_settled permit_id now result (Dict.get permit_id c.delegations) c
step (watches collect now) c = on_watchdog_tick collect now c
step (expires permit_id now) c = ([], on_deadline permit_id now c)
step starts c = ([], start c)
step shuts_down c = ([], shutdown c)

unfoldable pub run : List Event → AgentCore → AgentCore
run [] c = c
run (e ∷ es) c = run es (step e c).1
