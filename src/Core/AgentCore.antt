-- ===== src/Core/AgentCore.antt =====
-- src/core/agentcore.ts. A handler returns the messages that it sends, in order; a send that fails is only
-- logged. What the gateway does with a task until its promise settles is the environment's: a delegation
-- is in the state meanwhile. The id of a permit and the clock's readings are arguments.
pub mod Background
pub mod Owners
pub mod Granting
pub mod Tracked
pub mod Stuck
pub mod Answers
mod Examples
use roboppi.Base.{
  ℕ, ◌+◌, String, str_eq, length, Bool, true, false, not, ◌||◌, Option, none, some, List, [], ◌∷◌,
  ◌++◌, ◌==◌, or_default, if◌then◌else◌,
}
use Prim.Native.String.{◌++◌ as str_append}
use roboppi.Base.Dict
use roboppi.Base.Dict.{Dict}
use roboppi.Base.Json.{Json, null}
use roboppi.Worker.TaskPayload.{is_worker_task_job_payload, text_field}
use roboppi.Base.Trim.{Text, trim, to_lower_case, units, same_text}
use roboppi.Types.{non_retryable, duplicate_permit, Job, JobType, worker_task}
use roboppi.Core.CircuitBreaker.{CircuitBreakerConfig}
use roboppi.Core.BreakerRegistry
use roboppi.Core.BreakerRegistry.{Registry}
use roboppi.Core.Backpressure
use roboppi.Core.Backpressure.{BackpressureController}
use roboppi.Core.Budget
use roboppi.Core.Budget.{ExecutionBudget, ExecutionBudgetConfig}
use roboppi.Core.PermitGate
use roboppi.Core.PermitGate.{PermitGate, Permit, PermitRejection, Clock}
use roboppi.Core.Cancellation
use roboppi.Core.Cancellation.{CancellationManager}
use roboppi.Core.Watchdog
use roboppi.Core.Watchdog.{Watchdog}
use roboppi.Core.EscalationManager
use roboppi.Core.EscalationManager.{EscalationManager}
use roboppi.Core.Escalation.{EscalationEvent}
use roboppi.Core.JobEventThrottle
use roboppi.Core.JobEventThrottle.{JobEventThrottle, WorkerEvent}
use roboppi.Ipc.Messages.{
  WorkerStatus, failed, WorkerResult, OutboundMessage, ack, permit_granted, permit_rejected,
  job_completed, job_cancelled, heartbeat_ack, InboundMessage, submit_job, cancel_job,
  request_permit, report_queue_metrics, heartbeat,
}

-- A partial configuration of the escalation manager is given with its defaults filled in.
pub record AgentCoreConfig : Type 0 where
  pub budget : Option ExecutionBudgetConfig
  pub backpressure : Option Backpressure.BackpressureThresholds
  pub circuit_breaker : Option CircuitBreakerConfig
  pub watchdog_interval_ms : Option ℕ
  pub watchdog_thresholds : Dict Watchdog.WatchdogThreshold
  pub escalation_config : Option EscalationManager.EscalationManagerConfig

abbrev pub default_budget : ExecutionBudgetConfig
default_budget = record { max_concurrency = 10; max_rps = 50; max_cost_budget = none }

abbrev pub default_backpressure : Backpressure.BackpressureThresholds
default_backpressure = record {
  reject_threshold = record { num = 1; den = 1 };
  defer_threshold = record { num = 3; den = 4 };
  degrade_threshold = record { num = 1; den = 2 };
}

-- The throttle of a task that streams, and the number of its next event.
pub record Stream : Type 0 where
  pub throttle : JobEventThrottle
  pub seq : ℕ

-- A promise of the gateway that has not settled, by the id of its permit.
pub record Delegation : Type 0 where
  pub job : Job
  pub stream : Option Stream

pub record AgentCore : Type 0 where
  pub cancellation : CancellationManager
  pub permit_gate : PermitGate
  pub watchdog : Watchdog
  pub escalations : EscalationManager
  pub jobs : Dict Job
  pub active_permits_by_job : Dict String
  pub started : Bool
  pub delegations : Dict Delegation

-- The core's own listener at the escalation manager, and its callback at the watchdog.
abbrev pub own_listener : ℕ
own_listener = 0

unfoldable pub new : AgentCoreConfig → AgentCore
new config = record {
  cancellation = Cancellation.new;
  permit_gate =
      PermitGate.new (Budget.new (or_default config.budget default_budget))
        (record { breakers = []; default = config.circuit_breaker })
        (Backpressure.new (or_default config.backpressure default_backpressure)
          (record { max_active_permits = none; max_queue_depth = none; max_latency_ms = none }));
  watchdog =
      Watchdog.set_callbacks
        (record {
          on_shed = none;
          on_throttle = none;
          on_circuit_open = none;
          on_escalation = some own_listener;
        })
        (Watchdog.new config.watchdog_interval_ms config.watchdog_thresholds);
  escalations = EscalationManager.on_escalation own_listener (
      EscalationManager.new (or_default config.escalation_config EscalationManager.default_config));
  jobs = [];
  active_permits_by_job = [];
  started = false;
  delegations = [];
}

-- What a handler does: the messages sent, and the state after it.
abbrev pub Outcome : Type 0
Outcome = List OutboundMessage × AgentCore

unfoldable pub on_submit_job : String → Job → AgentCore → Outcome
on_submit_job request_id job c =
    (ack request_id job.job_id ∷ [], record c { jobs = Dict.set job.job_id job c.jobs })

-- A job with a permit has it revoked; one without leaves the registry.
unfoldable pub cancel_known : Option String → String → String → AgentCore → AgentCore
cancel_known (some permit_id) job_id reason c = record c {
  permit_gate = PermitGate.revoke_permit permit_id (some reason) c.permit_gate;
}
cancel_known none job_id reason c = record c { jobs = Dict.delete job_id c.jobs }

unfoldable pub on_cancel_job : String → String → String → AgentCore → Outcome
on_cancel_job request_id job_id reason c = elim (Dict.get job_id c.jobs) [
  | none ↦ (OutboundMessage.error "JOB_NOT_FOUND" job_id (some request_id) ∷ [], c)
  | some _ ↦ (
    job_cancelled job_id reason (some request_id) ∷ [],
    cancel_known (Dict.get job_id c.active_permits_by_job) job_id reason c,
  )
]

-- What both ends of a worker task, and an invalid payload, do to the state.
unfoldable pub forget : String → String → AgentCore → AgentCore
forget job_id permit_id c = record c {
  permit_gate = PermitGate.complete_permit permit_id c.permit_gate;
  cancellation = Cancellation.remove_controller permit_id c.cancellation;
  active_permits_by_job = Dict.delete job_id c.active_permits_by_job;
  jobs = Dict.delete job_id c.jobs;
}

opts_out : Text → Bool
opts_out v =
    same_text v (units "0")
    || same_text v (units "false")
    || same_text v (units "no")
    || same_text v (units "off")

-- The variable ROBOPPI_TUI_STREAM_STDIO: anything but an explicit no is a yes.
unfoldable pub forward_stdio : Option Text → Bool
unfolding opts_out
forward_stdio none = true
forward_stdio (some raw) = not (opts_out (to_lower_case (trim raw)))

is_stream : Json → Bool
is_stream payload = str_eq (text_field "outputMode" payload) "STREAM"

stream_for : Json → Option Text → Option Stream
stream_for payload raw =
    if is_stream payload
    then some (record { throttle = JobEventThrottle.new (forward_stdio raw); seq = 0 })
    else none

-- `raw` is the environment variable.
unfoldable pub execute_worker_task : Option Text → Job → String → AgentCore → Outcome
unfolding stream_for is_stream
execute_worker_task raw job permit_id c =
    if is_worker_task_job_payload job.payload
    then (
      [],
      record c {
        delegations =
            Dict.set permit_id
              (record { job = job; stream = stream_for (or_default job.payload null) raw })
              c.delegations;
      },
    )
    else (
      job_completed job.job_id failed none (some non_retryable) ∷ [],
      forget job.job_id permit_id c,
    )

unfoldable pub is_worker_task : JobType → Bool
is_worker_task worker_task = true
is_worker_task _ = false

-- A permit that the gate grants.
unfoldable pub accept_permit : Option Text → String → Job → Permit → AgentCore → Outcome
unfolding is_worker_task
accept_permit raw request_id job permit c =
    let c' = record c {
      cancellation =
          Cancellation.create_controller permit.permit_id (some job.job_id) c.cancellation;
      active_permits_by_job = Dict.set job.job_id permit.permit_id c.active_permits_by_job;
    } in
    let (sent, last) =
      if is_worker_task job.type
      then execute_worker_task raw job permit.permit_id c'
      else ([], c') in
    (permit_granted request_id permit ∷ sent, last)

answer : Option Text → String → Job → PermitGate.Result → AgentCore → Outcome
answer raw request_id job (PermitGate.rejected rejection) c =
    (permit_rejected request_id rejection ∷ [], c)
answer raw request_id job (PermitGate.granted permit) c = accept_permit raw request_id job permit c

unfoldable pub duplicate : Job → String → PermitRejection
duplicate job existing = record {
  reason = duplicate_permit;
  detail =
      str_append (str_append (str_append "Job " job.job_id) " already has active permit ") existing;
}

unfoldable pub register_job : Job → AgentCore → AgentCore
register_job job c =
    if Dict.has job.job_id c.jobs then c else record c { jobs = Dict.set job.job_id job c.jobs }

-- A request for a job in the registry.
unfoldable pub request_registered :
    Option Text → String → Clock → String → Job → ℕ → AgentCore → Outcome
unfolding answer
request_registered raw permit_id clock request_id job attempt_index c =
    elim (Dict.get job.job_id c.active_permits_by_job) [
      | some existing ↦ (permit_rejected request_id (duplicate job existing) ∷ [], c)
      | none ↦
          let (result, gate) =
            PermitGate.request_permit job attempt_index permit_id clock c.permit_gate in
          answer raw request_id job result (record c { permit_gate = gate })
    ]

unfoldable pub on_request_permit :
    Option Text → String → Clock → String → Job → ℕ → AgentCore → Outcome
unfolding register_job
on_request_permit raw permit_id clock request_id job attempt_index c =
    request_registered raw permit_id clock request_id job attempt_index (register_job job c)

unfoldable pub on_report_queue_metrics : ℕ → ℕ → AgentCore → Outcome
on_report_queue_metrics queue_depth oldest_job_age_ms c =
    let gate = c.permit_gate in
    (
      [],
      record c {
        permit_gate = record gate {
          backpressure =
              Backpressure.update_metrics
                (record {
                  active_permits = PermitGate.get_active_permit_count gate;
                  queue_depth = queue_depth;
                  avg_latency_ms = oldest_job_age_ms;
                })
                gate.backpressure;
        };
      },
    )

unfoldable pub on_heartbeat : ℕ → AgentCore → Outcome
on_heartbeat now c = (heartbeat_ack now ∷ [], c)

-- What a handler reads besides its message: the clocks, the id for a new permit, and the environment
-- variable.
pub record Env : Type 0 where
  pub now : ℕ
  pub clock : Clock
  pub permit_id : String
  pub raw : Option Text

-- The handlers, by the type of the message.
unfoldable pub handle : Env → InboundMessage → AgentCore → Outcome
handle env (submit_job request_id job) c = on_submit_job request_id job c
handle env (cancel_job request_id job_id reason) c = on_cancel_job request_id job_id reason c
handle env (request_permit request_id job attempt_index) c =
    on_request_permit env.raw env.permit_id env.clock request_id job attempt_index c
handle env (report_queue_metrics request_id queue_depth oldest_job_age_ms backlog_count) c =
    on_report_queue_metrics queue_depth oldest_job_age_ms c
handle env (heartbeat timestamp) c = on_heartbeat env.now c
