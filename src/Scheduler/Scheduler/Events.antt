-- ===== src/Scheduler/Scheduler/Events.antt =====
-- src/scheduler/index.ts: what happens to a scheduler after a job was submitted. Answers of the core, its
-- messages, timers, start and shutdown.
use roboppi.Base.{
  ℕ, zero, suc, ◌+◌, ◌-◌, String, Bool, true, false, Option, none, some, List, [], ◌∷◌, ◌++◌, max,
  if◌then◌else◌,
}
use Prim.Native.String.{◌++◌ as str_append}
use roboppi.Base.Dict
use roboppi.Base.Dict.{Dict}
use roboppi.Types.{
  Job, ErrorClass, retryable_transient, retryable_rate_limit, retryable_network, retryable_service,
  non_retryable, non_retryable_lint, non_retryable_test, fatal,
}
use roboppi.Ipc.Messages.{WorkerStatus, failed, succeeded, cancelled, InboundMessage}
use roboppi.Scheduler.JobQueue
use roboppi.Scheduler.InflightRegistry
use roboppi.Scheduler.InflightRegistry.{DeduplicationPolicy}
use roboppi.Scheduler.RetryPolicy.{Fraction, should_retry}
use roboppi.Scheduler.DeadLetterQueue
use roboppi.Scheduler.DeadLetterQueue.{DlqEntry}
use roboppi.Scheduler.Scheduler.{
  InFlightJobInfo, Exchange, Timer, looping, Scheduler, backoff_base_ms, compute_backoff_delay,
  truthy, notify, requeue, submit_job, update, update_if, backoff_of, process_loop,
}

unfoldable pub put_back_after : Job → Fraction → Scheduler → Scheduler
put_back_after job delay s = record s {
  timers = s.timers ++ record { job = job; delay_ms = delay } ∷ [];
}

-- The job of an exchange that did not get a permit comes back later.
unfoldable pub back_off : Fraction → Job → Option ℕ → Scheduler → Scheduler
back_off random job none s = put_back_after job (record { num = backoff_base_ms; den = 1 }) s
back_off random job (some r) s =
    put_back_after job
      (record { num = compute_backoff_delay random (backoff_of (s.objects r)); den = 1 })
      (update r (λ i. record i { backoff_count = i.backoff_count + 1 }) s)

-- The exchange is over: the permit is rejected, or another answer came.
unfoldable pub answered : Bool → Fraction → Exchange → Scheduler → Scheduler
answered true random e s =
    back_off random e.job e.info (update_if e.info (λ i. record i { processing = false }) s)
answered false random e s = update_if e.info (λ i. record i { backoff_count = 0 }) s

unfoldable pub close : String → Scheduler → Scheduler
close submit_id s = record s { exchanges = Dict.delete submit_id s.exchanges }

unfoldable pub acknowledge : String → Option Exchange → Scheduler → List InboundMessage × Scheduler
acknowledge submit_id none s = ([], s)
acknowledge submit_id (some e) s = if e.acknowledged then ([], s) else (
  InboundMessage.request_permit e.permit_request_id e.job e.attempt_index ∷ [],
  record s { exchanges = Dict.set submit_id (record e { acknowledged = true }) s.exchanges },
)

-- The answer to the request for a permit.
unfoldable pub receive_answer : String → Bool → Fraction → Option Exchange → Scheduler → Scheduler
receive_answer submit_id rejected random none s = s
receive_answer submit_id rejected random (some e) s =
    if e.acknowledged then answered rejected random e (close submit_id s) else s

-- A message cannot be sent, or its answer does not come.
unfoldable pub fail_exchange : String → Fraction → Option Exchange → Scheduler → Scheduler
fail_exchange submit_id random none s = s
fail_exchange submit_id random (some e) s = back_off random e.job e.info (close submit_id s)

unfoldable pub on_permit_granted : String → Scheduler → Scheduler
on_permit_granted job_id s =
    update_if (Dict.get job_id s.job_info) (λ i. record i { processing = true }) s

unfoldable pub release : Option String → Scheduler → Scheduler
release none s = s
release (some key) s = record s { inflight = InflightRegistry.deregister key s.inflight }

unfoldable pub forget : String → Scheduler → Scheduler
forget job_id s = record s { job_info = Dict.delete job_id s.job_info }

unfoldable pub bury : DlqEntry → Scheduler → Scheduler
bury e s = record s { dlq = DeadLetterQueue.push false e s.dlq }

abbrev pub error_text : Option ErrorClass → String
error_text none = "unknown"
error_text (some retryable_transient) = "RETRYABLE_TRANSIENT"
error_text (some retryable_rate_limit) = "RETRYABLE_RATE_LIMIT"
error_text (some retryable_network) = "RETRYABLE_NETWORK"
error_text (some retryable_service) = "RETRYABLE_SERVICE"
error_text (some non_retryable) = "NON_RETRYABLE"
error_text (some non_retryable_lint) = "NON_RETRYABLE_LINT"
error_text (some non_retryable_test) = "NON_RETRYABLE_TEST"
error_text (some fatal) = "FATAL"

-- No retry: the job goes to the dead letters.
unfoldable pub give_up : String → InFlightJobInfo → Option ErrorClass → ℕ → Scheduler → Scheduler
give_up job_id i error now s = forget job_id (
    bury
      (record {
        job = i.job;
        reason = str_append "Job failed with outcome=failed, errorClass=" (error_text error);
        error_class = error;
        failed_at = now;
        attempt_count = i.attempt_index + 1;
      })
      s)

unfoldable pub retried : ℕ → InFlightJobInfo → Fraction → Scheduler → Scheduler
retried r i delay s =
    put_back_after i.job delay (update r (λ j. record j { attempt_index = j.attempt_index + 1 }) s)

unfoldable pub failed_with :
    String → ℕ → InFlightJobInfo → Option ErrorClass → Fraction → ℕ → Scheduler → Scheduler
failed_with job_id r i none random now s = give_up job_id i none now s
failed_with job_id r i (some error) random now s =
    let decision = should_retry s.retry_policy error i.attempt_index random in
    if decision.retry then retried r i decision.delay_ms s else give_up job_id i (some error) now s

unfoldable pub completed_with :
    WorkerStatus
    → String
    → ℕ
    → InFlightJobInfo
    → Option ErrorClass
    → Fraction
    → ℕ
    → Scheduler
    → Scheduler
completed_with succeeded job_id r i error random now s = forget job_id s
completed_with cancelled job_id r i error random now s = forget job_id s
completed_with failed job_id r i error random now s = failed_with job_id r i error random now s

unfoldable pub completed_object :
    WorkerStatus
    → String
    → ℕ
    → Option InFlightJobInfo
    → Option ErrorClass
    → Fraction
    → ℕ
    → Scheduler
    → Scheduler
completed_object outcome job_id r none error random now s = s
completed_object outcome job_id r (some i) error random now s =
    completed_with outcome job_id r i error random now
      (release (truthy i.job.key) (update r (λ j. record j { processing = false }) s))

unfoldable pub handle_job_completed :
    String → WorkerStatus → Option ErrorClass → Fraction → ℕ → Scheduler → Scheduler
handle_job_completed job_id outcome error random now s = elim (Dict.get job_id s.job_info) [
  | none ↦ s
  | some r ↦ completed_object outcome job_id r (s.objects r) error random now s
]

abbrev pub key_of : Option InFlightJobInfo → Option String
key_of none = none
key_of (some i) = i.job.key

unfoldable pub on_job_cancelled : String → Scheduler → Scheduler
on_job_cancelled job_id s = elim (Dict.get job_id s.job_info) [
  | none ↦ s
  | some r ↦ forget job_id (release (truthy (key_of (s.objects r))) s)
]

unfoldable pub nth_timer : ℕ → List Timer → Option Timer
nth_timer n [] = none
nth_timer zero (t ∷ ts) = some t
nth_timer (suc n) (t ∷ ts) = nth_timer n ts

unfoldable pub without_nth : ℕ → List Timer → List Timer
without_nth n [] = []
without_nth zero (t ∷ ts) = ts
without_nth (suc n) (t ∷ ts) = t ∷ without_nth n ts

unfoldable pub fired : Option Timer → Scheduler → Scheduler
fired none s = s
fired (some t) s = if s.running then requeue t.job s else s

-- The timer at a place in the order in which they were set.
unfoldable pub fire : ℕ → Scheduler → Scheduler
fire n s = fired (nth_timer n s.timers) (record s { timers = without_nth n s.timers })

abbrev pub is_processing : Option InFlightJobInfo → Bool
is_processing none = false
is_processing (some i) = i.processing

unfoldable pub has_in_flight : (ℕ → Option InFlightJobInfo) → Dict ℕ → Bool
has_in_flight objects [] = false
has_in_flight objects ((id, r) ∷ m) =
    if is_processing (objects r) then true else has_in_flight objects m

unfoldable pub drain_object : String → Option InFlightJobInfo → ℕ → Scheduler → Scheduler
drain_object job_id none now s = s
drain_object job_id (some i) now s =
    if i.processing
    then forget job_id (
        release (truthy i.job.key) (
          bury
            (record {
              job = i.job;
              reason = "Drain timeout: job still in-flight at shutdown";
              error_class = none;
              failed_at = now;
              attempt_count = i.attempt_index + 1;
            })
            s))
    else s

unfoldable pub drain_each : Dict ℕ → ℕ → Scheduler → Scheduler
drain_each [] now s = s
drain_each ((id, r) ∷ m) now s = drain_each m now (drain_object id (s.objects r) now s)

-- The drain ends by its time limit.
unfoldable pub on_drain_timeout : ℕ → Scheduler → Scheduler
on_drain_timeout now s = drain_each s.job_info now s

-- What `spawnCore` does not do, it throws.
unfoldable pub start : Bool → Scheduler → Scheduler
start spawned s =
    if s.running
    then s
    else if spawned
    then record s { running = true; connected = true; loop = looping }
    else record s { running = true }

-- `shutdown` up to the point where it waits for the drain or for the core to end, and what follows.
unfoldable pub stop : Scheduler → Scheduler
stop s = notify (record s { running = false })

unfoldable pub core_killed : Scheduler → Scheduler
core_killed s = record s { connected = false }

abbrev pub age_of : ℕ → Option InFlightJobInfo → ℕ
age_of now none = 0
age_of now (some i) = now - i.enqueued_at

unfoldable pub oldest : (ℕ → Option InFlightJobInfo) → ℕ → Dict ℕ → ℕ
oldest objects now [] = 0
oldest objects now ((id, r) ∷ m) = max (age_of now (objects r)) (oldest objects now m)

unfoldable pub report_queue_metrics : String → ℕ → Scheduler → List InboundMessage
report_queue_metrics request_id now s =
    if s.connected
    then (if s.running
        then InboundMessage.report_queue_metrics request_id (JobQueue.size s.queue)
            (oldest s.objects now s.job_info) (Dict.size s.job_info)
          ∷ []
        else [])
    else []

pub data Event : Type 0 where
  submits : Job → Option DeduplicationPolicy → ℕ → Event
  turns : (submit_id permit_id : String) → Event
  acknowledges : (submit_id : String) → Event
  answers : (submit_id : String) → Bool → Fraction → Event
  breaks : (submit_id : String) → Fraction → Event
  grants cancels : (job_id : String) → Event
  completes : (job_id : String) → WorkerStatus → Option ErrorClass → Fraction → ℕ → Event
  fires drains : ℕ → Event
  starts : Bool → Event
  stops ends : Event

unfoldable pub step : Event → Scheduler → Scheduler
step (submits job policy now) s = (submit_job job policy now s).1
step (turns submit_id permit_id) s = (process_loop submit_id permit_id s).1
step (acknowledges id) s = (acknowledge id (Dict.get id s.exchanges) s).1
step (answers id rejected random) s = receive_answer id rejected random (Dict.get id s.exchanges) s
step (breaks id random) s = fail_exchange id random (Dict.get id s.exchanges) s
step (grants job_id) s = on_permit_granted job_id s
step (cancels job_id) s = on_job_cancelled job_id s
step (completes job_id outcome error random now) s =
    handle_job_completed job_id outcome error random now s
step (fires n) s = fire n s
step (drains now) s = on_drain_timeout now s
step (starts spawned) s = start spawned s
step stops s = stop s
step ends s = core_killed s

unfoldable pub run : List Event → Scheduler → Scheduler
run [] s = s
run (e ∷ es) s = run es (step e s)
