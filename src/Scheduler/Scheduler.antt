-- ===== src/Scheduler/Scheduler.antt =====
-- src/scheduler/index.ts. Each function is a run of the source between two points where it awaits; the mutex
-- orders those of submitJob and processNext, which do not await inside it. An `info` of the source is an
-- object that the map and a pending exchange may share: it is a number, under which `objects` has what stands
-- in it. `start` is one step, with whether the core could be spawned. Ids of requests, the clock and the
-- random fraction are arguments. Timers do not run before they are due, and a text of an answer is its parts.
pub mod Events
pub mod Bounded
pub mod Exchanges
pub mod Unchanged
pub mod Attempts
pub mod Keys
pub mod Reasons
pub mod Drained
pub mod Kept
mod Examples
use roboppi.Base.{
  ℕ, ◌+◌, ◌*◌, ◌/◌, ◌^◌, min, String, str_eq, Bool, true, false, Option, none, some, List, [], ◌∷◌,
  ◌++◌, ◌==◌, length, or_default, if◌then◌else◌,
}
use Prim.Native.String.{◌++◌ as str_append}
use mathlib.Core.Option
use roboppi.Base.Dict
use roboppi.Base.Dict.{Dict}
use roboppi.Types.{
  Job, ErrorClass, retryable_transient, retryable_rate_limit, retryable_network, retryable_service,
  non_retryable, non_retryable_lint, non_retryable_test, fatal,
}
use roboppi.Ipc.Messages.{WorkerStatus, failed, succeeded, cancelled, InboundMessage}
use roboppi.Scheduler.JobQueue
use roboppi.Scheduler.JobQueue.{JobQueue}
use roboppi.Scheduler.InflightRegistry
use roboppi.Scheduler.InflightRegistry.{
  DeduplicationPolicy, RegisterResult, proceeds, coalesces, rejects, Registry,
}
use roboppi.Scheduler.RetryPolicy
use roboppi.Scheduler.RetryPolicy.{RetryPolicyConfig, RetryDecision, Fraction, should_retry}
use roboppi.Scheduler.DeadLetterQueue
use roboppi.Scheduler.DeadLetterQueue.{DlqEntry, DeadLetterQueue}

-- The supervisor's configuration, the period of the metrics and the limit of the drain are not here: when the
-- events that they time happen is the environment's.
pub record SchedulerConfig : Type 0 where
  pub retry : Option RetryPolicyConfig
  pub default_policy : Option DeduplicationPolicy

pub record InFlightJobInfo : Type 0 where
  pub job : Job
  pub attempt_index : ℕ
  pub processing : Bool
  pub enqueued_at : ℕ
  pub backoff_count : ℕ

-- The chain of promises for a job that was taken from the queue, with the variables that it captures.
pub record Exchange : Type 0 where
  pub job : Job
  pub info : Option ℕ
  pub attempt_index : ℕ
  pub permit_request_id : String
  pub acknowledged : Bool

-- A timer that puts a job back into the queue.
pub record Timer : Type 0 where
  pub job : Job
  pub delay_ms : Fraction

-- Where the process loop stands: not there, at the head of the loop, waiting, or notified.
pub data Loop : Type 0 where
  ended looping waiting notified : Loop

pub record Scheduler : Type 0 where
  pub queue : JobQueue
  pub inflight : Registry
  pub retry_policy : RetryPolicyConfig
  pub dlq : DeadLetterQueue
  pub default_policy : DeduplicationPolicy
  pub objects : ℕ → Option InFlightJobInfo
  pub next_object : ℕ
  pub job_info : Dict ℕ
  pub connected : Bool
  pub running : Bool
  pub loop : Loop
  pub exchanges : Dict Exchange
  pub timers : List Timer

unfoldable pub new : SchedulerConfig → Scheduler
new config = record {
  queue = JobQueue.new;
  inflight = [];
  retry_policy = or_default config.retry RetryPolicy.default_retry_config;
  dlq = DeadLetterQueue.new 10000 false none;
  default_policy = or_default config.default_policy InflightRegistry.reject;
  objects = λ n. none;
  next_object = 0;
  job_info = [];
  connected = false;
  running = false;
  loop = ended;
  exchanges = [];
  timers = [];
}

abbrev pub backoff_base_ms : ℕ
backoff_base_ms = 500

abbrev pub backoff_max_ms : ℕ
backoff_max_ms = 30000

-- The denominator of the fraction is not 0.
unfoldable pub compute_backoff_delay : Fraction → ℕ → ℕ
compute_backoff_delay random count =
    (random.num * min backoff_max_ms (backoff_base_ms * 2 ^ count)) / random.den

-- A key of the map counts unless it is the empty text.
unfoldable pub truthy : Option String → Option String
truthy none = none
truthy (some t) = if str_eq t "" then none else some t

abbrev pub wake : Loop → Loop
wake waiting = notified
wake ended = ended
wake looping = looping
wake notified = notified

unfoldable pub notify : Scheduler → Scheduler
notify s = record s { loop = wake s.loop }

-- `queue.enqueue(job)` and `notify()`.
unfoldable pub requeue : Job → Scheduler → Scheduler
requeue job s = notify (record s { queue = JobQueue.enqueue job s.queue })

pub data SubmitResult : Type 0 where
  accepted : (cancel_job_id : Option String) → SubmitResult
  duplicate_key : (key existing : String) → SubmitResult
  coalesced_with : (existing : String) → SubmitResult

-- Queue a job and make its object.
unfoldable pub admit : Job → ℕ → Scheduler → Scheduler
admit job now s = record (requeue job s) {
  objects = λ n.
      if n == s.next_object
      then some (record {
        job = job;
        attempt_index = 0;
        processing = false;
        enqueued_at = now;
        backoff_count = 0;
      })
      else s.objects n;
  next_object = s.next_object + 1;
  job_info = Dict.set job.job_id s.next_object s.job_info;
}

unfoldable pub registered :
    RegisterResult × Registry → String → Job → ℕ → Scheduler → SubmitResult × Scheduler
registered (rejects existing, r) key job now s =
    (duplicate_key key existing, record s { inflight = r })
registered (coalesces existing, r) key job now s =
    (coalesced_with existing, record s { inflight = r })
registered (proceeds cancelled_id, r) key job now s =
    (accepted (truthy cancelled_id), admit job now (record s { inflight = r }))

unfoldable pub submit_job :
    Job → Option DeduplicationPolicy → ℕ → Scheduler → SubmitResult × Scheduler
submit_job job policy now s = elim (truthy job.key) [
  | none ↦ (accepted none, admit job now s)
  | some key ↦
      registered
        (InflightRegistry.register key job.job_id (or_default policy s.default_policy) s.inflight)
        key job now s
]

-- Write to an object.
unfoldable pub update : ℕ → (InFlightJobInfo → InFlightJobInfo) → Scheduler → Scheduler
update r f s = record s {
  objects = λ n. if n == r then Option.map f (s.objects n) else s.objects n;
}

unfoldable pub update_if : Option ℕ → (InFlightJobInfo → InFlightJobInfo) → Scheduler → Scheduler
update_if none f s = s
update_if (some r) f s = update r f s

abbrev pub attempt_of : Option InFlightJobInfo → ℕ
attempt_of none = 0
attempt_of (some i) = i.attempt_index

abbrev pub backoff_of : Option InFlightJobInfo → ℕ
backoff_of none = 0
backoff_of (some i) = i.backoff_count

abbrev pub object_of : Option ℕ → Scheduler → Option InFlightJobInfo
object_of none s = none
object_of (some r) s = s.objects r

unfoldable pub taken :
    String → String → Option (Job × JobQueue) → Scheduler → List InboundMessage × Scheduler
taken submit_id permit_id none s = ([], s)
taken submit_id permit_id (some (job, rest)) s =
    let info = Dict.get job.job_id s.job_info in
    (
      InboundMessage.submit_job submit_id job ∷ [],
      record s {
        queue = rest;
        exchanges =
            Dict.set submit_id
              (record {
                job = job;
                info = info;
                attempt_index = attempt_of (object_of info s);
                permit_request_id = permit_id;
                acknowledged = false;
              })
              s.exchanges;
      },
    )

unfoldable pub process_next : String → String → Scheduler → List InboundMessage × Scheduler
process_next submit_id permit_id s =
    if s.connected then taken submit_id permit_id (JobQueue.dequeue s.queue) s else ([], s)

-- The process loop from the point where it stands to the next.
unfoldable pub turn_at : Loop → String → String → Scheduler → List InboundMessage × Scheduler
turn_at ended submit_id permit_id s = ([], s)
turn_at waiting submit_id permit_id s = ([], s)
turn_at looping submit_id permit_id s =
    if s.running
    then (if JobQueue.is_empty s.queue
        then ([], record s { loop = waiting })
        else process_next submit_id permit_id s)
    else ([], record s { loop = ended })
turn_at notified submit_id permit_id s =
    if s.running
    then process_next submit_id permit_id (record s { loop = looping })
    else ([], record s { loop = ended })

unfoldable pub process_loop : String → String → Scheduler → List InboundMessage × Scheduler
process_loop submit_id permit_id s = turn_at s.loop submit_id permit_id s
