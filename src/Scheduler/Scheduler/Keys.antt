-- ===== src/Scheduler/Scheduler/Keys.antt =====
-- The keys of jobs in src/scheduler/index.ts.
use roboppi.Base.{
  ℕ, String, str_eq, eq_refl, ◌≡◌, refl, ap, ◌∙◌, false, Option, none, some, if◌then◌else◌,
  if_holds, or_default,
}
use roboppi.Base.Dict
use roboppi.Base.Dict.{Dict, get-set, get-delete}
use roboppi.Types.{Job, ErrorClass}
use roboppi.Ipc.Messages.{WorkerStatus, failed, succeeded, cancelled}
use roboppi.Scheduler.InflightRegistry.{
  DeduplicationPolicy, RegisterResult, proceeds, coalesces, rejects, Registry, lookup, register,
}
use roboppi.Scheduler.InflightRegistry.Holders.{
  register_lem, lookup-deregister, answer, holder_after,
}
use roboppi.Scheduler.RetryPolicy.{Fraction, should_retry}
use roboppi.Scheduler.Scheduler.{
  InFlightJobInfo, Scheduler, SubmitResult, accepted, duplicate_key, coalesced_with, admit, requeue,
  notify, registered, submit_job, truthy, update,
}
use roboppi.Scheduler.Scheduler.Events.{
  release, forget, bury, give_up, retried, put_back_after, failed_with, completed_with,
  completed_object, handle_job_completed,
}

-- What a submitter hears of a registration.
abbrev told : String → RegisterResult → SubmitResult
told key (proceeds c) = accepted (truthy c)
told key (coalesces holder) = coalesced_with holder
told key (rejects holder) = duplicate_key key holder

registered_answer :
    (a : RegisterResult × Registry) (key other : String) (job : Job) (now : ℕ) (s : Scheduler)
    → ((registered a key job now s).0 ≡ told key a.0)
      × (lookup other (registered a key job now s).1.inflight ≡ lookup other a.1)
unfolding registered admit requeue notify
registered_answer (proceeds c, r) key other job now s = (refl, refl)
registered_answer (coalesces h, r) key other job now s = (refl, refl)
registered_answer (rejects h, r) key other job now s = (refl, refl)

inflight-give_up :
    (id : String) (i : InFlightJobInfo) (error : Option ErrorClass) (now : ℕ) (s : Scheduler)
    → (give_up id i error now s).inflight ≡ s.inflight
unfolding give_up forget bury
inflight-give_up id i error now s = refl

inflight-failed_with :
    (id : String) (r : ℕ) (i : InFlightJobInfo) (error : Option ErrorClass) (random : Fraction)
    (now : ℕ) (s : Scheduler)
    → (failed_with id r i error random now s).inflight ≡ s.inflight
unfolding failed_with retried put_back_after update
inflight-failed_with id r i none random now s = inflight-give_up id i none now s
inflight-failed_with id r i (some error) random now s =
    if_holds (λ (t : Scheduler). t.inflight ≡ s.inflight)
      (should_retry s.retry_policy error i.attempt_index random).retry (λ _. refl)
      (λ _. inflight-give_up id i (some error) now s)

inflight-completed_with :
    (outcome : WorkerStatus) (id : String) (r : ℕ) (i : InFlightJobInfo) (error : Option ErrorClass)
    (random : Fraction) (now : ℕ) (s : Scheduler)
    → (completed_with outcome id r i error random now s).inflight ≡ s.inflight
unfolding completed_with forget
inflight-completed_with succeeded id r i error random now s = refl
inflight-completed_with cancelled id r i error random now s = refl
inflight-completed_with failed id r i error random now s =
    inflight-failed_with id r i error random now s

-- A report of the end of a job that the scheduler knows.
module _ (key id : String) (r : ℕ) (i : InFlightJobInfo) (outcome : WorkerStatus)
    (error : Option ErrorClass) (random : Fraction) (now : ℕ) (s : Scheduler)
    (known : Dict.get id s.job_info ≡ some r) (at_r : s.objects r ≡ some i)
    (keyed : truthy i.job.key ≡ some key) where
  lookup-completed_object :
      (other : String)
      → lookup other (completed_object outcome id r (some i) error random now s).inflight
        ≡ (if str_eq key other then none else lookup other s.inflight)
  unfolding completed_object release update
  lookup-completed_object other =
      ap (lookup other) (inflight-completed_with outcome id r i error random now _)
      ∙ ap
          (λ o.
            lookup other (release o (update r (λ j. record j { processing = false }) s)).inflight)
          keyed
      ∙ lookup-deregister key other s.inflight

  known-handle_job_completed :
      handle_job_completed id outcome error random now s
      ≡ completed_object outcome id r (some i) error random now s
  unfolding handle_job_completed
  known-handle_job_completed =
      rw (known, handle_job_completed)
        (ap (λ o. completed_object outcome id r o error random now s) at_r)

  pub lookup-handle_job_completed :
      (other : String)
      → lookup other (handle_job_completed id outcome error random now s).inflight
        ≡ (if str_eq key other then none else lookup other s.inflight)
  lookup-handle_job_completed other =
      ap (λ (t : Scheduler). lookup other t.inflight) known-handle_job_completed
      ∙ lookup-completed_object other

module _ (key : String) (job : Job) (policy : Option DeduplicationPolicy) (now : ℕ) (s : Scheduler)
    (keyed : truthy job.key ≡ some key) where
  keyed-submit_job :
      submit_job job policy now s
      ≡ registered
          (register key job.job_id (or_default policy s.default_policy) s.inflight)
          key
          job
          now
          s
  unfolding submit_job
  keyed-submit_job = rw (keyed, submit_job) refl

  -- A job is accepted, and holds its key, if no other job holds that.
  submit_job_free :
      lookup key s.inflight ≡ none
      → ((submit_job job policy now s).0 ≡ accepted none)
        × (lookup key (submit_job job policy now s).1.inflight ≡ some job.job_id)
  unfolding truthy
  submit_job_free free =
      let chosen = or_default policy s.default_policy in
      let result = register key job.job_id chosen s.inflight in
      let (says, holds) = register_lem key job.job_id key chosen s.inflight in
      let says_free : result.0 ≡ proceeds none = says ∙ ap (answer chosen) free in
      let (first, second) = registered_answer result key key job now s in
      (
        ap (λ (o : SubmitResult × Scheduler). o.0) keyed-submit_job
            ∙ first
            ∙ ap (told key) says_free,
        ap (λ (o : SubmitResult × Scheduler). lookup key o.1.inflight) keyed-submit_job
            ∙ second
            ∙ holds
            ∙ rw (eq_refl key) (ap (λ a. some (holder_after job.job_id a)) says_free),
      )

-- A report that a job with a key has ended, whatever the outcome and also if the job is to run again, frees
-- the key of whichever job holds it, and no other key. The next job with that key is accepted under each
-- policy, with no job to cancel, and holds the key.
pub submit_job-handle_job_completed :
    (key other id : String) (r : ℕ) (i : InFlightJobInfo) (outcome : WorkerStatus)
    (error : Option ErrorClass) (random : Fraction) (now later : ℕ) (job : Job)
    (policy : Option DeduplicationPolicy) (s : Scheduler)
    → Dict.get id s.job_info ≡ some r
    → s.objects r ≡ some i
    → truthy i.job.key ≡ some key
    → truthy job.key ≡ some key
    → let t = handle_job_completed id outcome error random now s in
      (lookup other t.inflight ≡ (if str_eq key other then none else lookup other s.inflight))
      × ((submit_job job policy later t).0 ≡ accepted none)
      × (lookup key (submit_job job policy later t).1.inflight ≡ some job.job_id)
submit_job-handle_job_completed key other id r i outcome error random now later job policy s known
      at_r keyed next =
    let frees =
      lookup-handle_job_completed key id r i outcome error random now s known at_r keyed in
    let free : lookup key (handle_job_completed id outcome error random now s).inflight ≡ none =
      frees key ∙ rw (eq_refl key) refl in
    let (says, holds) =
      submit_job_free key job policy later (handle_job_completed id outcome error random now s) next
        free in
    (frees other, says, holds)
