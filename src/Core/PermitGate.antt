-- ===== src/Core/PermitGate.antt =====
-- src/core/permit-gate.ts. The gate owns its budget, breakers and backpressure here; the core shares
-- them. `generateId` and the clock are arguments. An `AbortController` is an entry of `signals`, which
-- outlives the permit that carries it: `none` is not aborted, `some reason` aborted.
pub mod Accounts
pub mod Release
pub mod Request
pub mod Answer
pub mod Run
pub mod Probes
pub mod Actives
mod Examples
use roboppi.Base.{
  or_default, ℕ, ◌+◌, ◌/◌, Bool, true, false, ◌&&◌, Option, none, some, List, [], ◌∷◌, String, leb,
  if◌then◌else◌,
}
use Prim.Native.String.{◌++◌ as str_append}
use roboppi.Base.Dict
use roboppi.Base.Dict.{Dict, is_some}
use roboppi.Base.Json.{Json, string, get_field}
use roboppi.Types.{
  Job, JobType, llm, worker_task, PermitTokens, PermitRejectionReason, global_shed, deferred,
  circuit_open, rate_limit,
}
use roboppi.Core.CircuitBreaker.{CircuitState, CircuitBreaker, CircuitBreakerConfig}
use roboppi.Core.BreakerRegistry
use roboppi.Core.BreakerRegistry.{Registry, get_snapshot, is_provider_open}
use roboppi.Core.Backpressure
use roboppi.Core.Backpressure.{
  BackpressureController, BackpressureMetrics, accept, reject, defer, degrade, check,
  update_metrics,
}
use roboppi.Core.Budget.{ExecutionBudget, can_issue, consume, release, cost_of}

pub record Permit : Type 0 where
  pub permit_id : String
  pub job_id : String
  pub deadline_at : ℕ
  pub attempt_index : ℕ
  pub tokens_granted : PermitTokens
  pub circuit_state_snapshot : Dict CircuitState

pub record PermitRejection : Type 0 where
  pub reason : PermitRejectionReason
  pub detail : String

pub data Result : Type 0 where
  granted : Permit → Result
  rejected : PermitRejection → Result

pub record PermitGate : Type 0 where
  pub budget : ExecutionBudget
  pub circuit_breakers : Registry
  pub backpressure : BackpressureController
  pub active_permits : Dict Permit
  pub deadline_timers : Dict ℕ
  pub signals : Dict (Option String)

unfoldable pub new : ExecutionBudget → Registry → BackpressureController → PermitGate
new budget breakers backpressure = record {
  budget = budget;
  circuit_breakers = breakers;
  backpressure = backpressure;
  active_permits = [];
  deadline_timers = [];
  signals = [];
}

-- The clock at its four readings in `requestPermit`.
pub record Clock : Type 0 where
  pub checked : ℕ
  pub issued : ℕ
  pub consumed : ℕ
  pub armed : ℕ

-- A kind that is no text names no breaker.
text_of : Option Json → Option String
text_of (some (string kind)) = some kind
text_of _ = none

worker_kind_of : Option Json → Option String
unfolding text_of
worker_kind_of none = none
worker_kind_of (some payload) = text_of (get_field "workerKind" payload)

provider_in : JobType → Job → Option String
provider_in worker_task job = worker_kind_of job.payload
provider_in llm job = some "LLM"
provider_in _ job = none

-- The provider whose breaker matters to a job.
unfoldable pub resolve_provider : Job → Option String
unfolding provider_in worker_kind_of
resolve_provider job = provider_in job.type job

-- `provider !== undefined && isProviderOpen(provider)`.
unfoldable pub ask_provider : Option String → Registry → Bool × Registry
ask_provider none r = (false, r)
ask_provider (some provider) r = is_provider_open provider r

unfoldable pub open_detail : Option String → String
open_detail provider = str_append "Circuit breaker open for provider: " (or_default provider "")

-- `Math.ceil(costHint / 2)` under DEGRADE, else the hint.
abbrev pub granted_cost : Bool → Option ℕ → Option ℕ
granted_cost true (some hint) = some ((hint + 1) / 2)
granted_cost true none = none
granted_cost false hint = hint

unfoldable pub make_permit : Job → ℕ → String → Clock → Bool → Dict CircuitState → Permit
make_permit job attempt_index permit_id clock is_degraded snapshot = record {
  permit_id = permit_id;
  job_id = job.job_id;
  deadline_at = clock.issued + job.limits.timeout_ms;
  attempt_index = attempt_index;
  tokens_granted = record {
    concurrency = 1;
    rps = 1;
    cost_budget = granted_cost is_degraded job.limits.cost_hint;
  };
  circuit_state_snapshot = snapshot;
}

-- The permit is stored, with its deadline timer and its signal.
unfoldable pub activate : Permit → ℕ → ExecutionBudget → PermitGate → PermitGate
activate permit due budget g = record g {
  budget = budget;
  active_permits = Dict.set permit.permit_id permit g.active_permits;
  deadline_timers = Dict.set permit.permit_id due g.deadline_timers;
  signals = Dict.set permit.permit_id none g.signals;
}

-- The second half of `requestPermit`: take the tokens.
unfoldable pub take_tokens : Permit → ℕ → Clock → PermitGate → Result × PermitGate
take_tokens permit timeout clock g =
    let (taken, budget) = consume permit.tokens_granted clock.consumed g.budget in
    if taken then (granted permit, activate permit (clock.armed + timeout) budget g) else (
      rejected (record { reason = rate_limit; detail = "Budget consume failed (race)" }),
      record g { budget = budget },
    )

-- The budget's check, and what follows it.
unfoldable pub check_budget : Job → ℕ → Permit → Clock → PermitGate → Result × PermitGate
check_budget job attempt_index permit clock g =
    let (refusal, budget) = can_issue job attempt_index clock.checked g.budget in
    let checked = record g { budget = budget } in
    elim refusal [
      | some reason ↦
          (rejected (record { reason = reason; detail = "Execution budget check failed" }), checked)
      | none ↦ take_tokens permit job.limits.timeout_ms clock checked
    ]

-- What follows the backpressure check, if that lets the job pass.
unfoldable pub check_breaker : Bool → Job → ℕ → String → Clock → PermitGate → Result × PermitGate
check_breaker is_degraded job attempt_index permit_id clock g =
    let snapshot = get_snapshot g.circuit_breakers in
    let (blocked, breakers) = ask_provider (resolve_provider job) g.circuit_breakers in
    let asked = record g { circuit_breakers = breakers } in
    if blocked
    then (
      rejected (record { reason = circuit_open; detail = open_detail (resolve_provider job) }),
      asked,
    )
    else check_budget job attempt_index
        (make_permit job attempt_index permit_id clock is_degraded snapshot) clock asked

unfoldable pub request_permit : Job → ℕ → String → Clock → PermitGate → Result × PermitGate
request_permit job attempt_index permit_id clock g = elim (check g.backpressure) [
  | reject ↦
      (rejected (record { reason = global_shed; detail = "Backpressure: system overloaded" }), g)
  | defer ↦ (
    rejected (record { reason = deferred; detail = "Backpressure: system busy, retry later" }),
    g,
  )
  | degrade ↦ check_breaker true job attempt_index permit_id clock g
  | accept ↦ check_breaker false job attempt_index permit_id clock g
]

-- A signal is aborted once; a later reason does not replace the first.
abort_signal :
    Option (Option String) → String → String → Dict (Option String) → Dict (Option String)
abort_signal (some (some earlier)) id reason signals = signals
abort_signal _ id reason signals = Dict.set id (some reason) signals

unfoldable pub abort : String → String → Dict (Option String) → Dict (Option String)
unfolding abort_signal
abort id reason signals = abort_signal (Dict.get id signals) id reason signals

-- What `revokePermit` and `completePermit` share.
unfoldable pub retire : String → Permit → PermitGate → PermitGate
retire id permit g = record g {
  budget = release permit.tokens_granted g.budget;
  active_permits = Dict.delete id g.active_permits;
  deadline_timers = Dict.delete id g.deadline_timers;
}

unfoldable pub revoke_permit : String → Option String → PermitGate → PermitGate
revoke_permit id reason g = elim (Dict.get id g.active_permits) [
  | none ↦ g
  | some permit ↦
      retire id permit
        (record g { signals = abort id (or_default reason "Permit revoked") g.signals })
]

unfoldable pub complete_permit : String → PermitGate → PermitGate
complete_permit id g = elim (Dict.get id g.active_permits) [
  | none ↦ g
  | some permit ↦ retire id permit g
]

-- The event loop runs a deadline timer that is due.
unfoldable pub fire : String → ℕ → PermitGate → PermitGate
fire id now g = elim (Dict.get id g.deadline_timers) [
  | none ↦ g
  | some due ↦ if leb due now then revoke_permit id (some "Deadline exceeded") g else g
]

abort_all : Dict Permit → Dict (Option String) → Dict (Option String)
abort_all [] signals = signals
abort_all ((id, _) ∷ permits) signals = abort_all permits (abort id "PermitGate disposed" signals)

unfoldable pub dispose : PermitGate → PermitGate
unfolding abort_all
dispose g = record g {
  active_permits = [];
  deadline_timers = [];
  signals = abort_all g.active_permits g.signals;
}

abbrev pub get_active_permit_count : PermitGate → ℕ
get_active_permit_count g = Dict.size g.active_permits

-- What happens to a gate while it is in use. `measures` and `observes` are the calls of others on the
-- shared backpressure controller and on a breaker.
pub data Event : Type 0 where
  requests : Job → ℕ → String → Clock → Event
  revokes : String → Option String → Event
  completes : String → Event
  fires : String → ℕ → Event
  measures : BackpressureMetrics → Event
  observes : String → Option CircuitBreakerConfig → (CircuitBreaker → CircuitBreaker) → Event

unfoldable pub step : Event → PermitGate → PermitGate
step (requests job attempt_index id clock) g = (request_permit job attempt_index id clock g).1
step (revokes id reason) g = revoke_permit id reason g
step (completes id) g = complete_permit id g
step (fires id now) g = fire id now g
step (measures metrics) g = record g { backpressure = update_metrics metrics g.backpressure }
step (observes provider config f) g = record g {
  circuit_breakers = BreakerRegistry.update provider config f g.circuit_breakers;
}

unfoldable pub run : List Event → PermitGate → PermitGate
run [] g = g
run (e ∷ es) g = run es (step e g)
