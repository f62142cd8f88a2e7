-- ===== src/Scheduler/Scheduler/Attempts.antt =====
-- How often a job of src/scheduler/index.ts is attempted.
use roboppi.Base.{
  ℕ, ◌+◌, ◌==◌, ◌≤◌, ◌≡◌, refl, subst, ap, ◌∙◌, inl, inr, Bool, false, Option, none, some, List, [],
  ◌∷◌, String, arith, Option-cases, if_holds, or_default,
}
use mathlib.Core.Option
use roboppi.Base.Dict
use roboppi.Base.Dict.{Dict}
use roboppi.Types.{ErrorClass}
use roboppi.Ipc.Messages.{WorkerStatus, failed, succeeded, cancelled}
use roboppi.Scheduler.DeadLetterQueue
use roboppi.Scheduler.DeadLetterQueue.{DlqEntry, DeadLetterQueue, push, append_entry, rest_of}
use roboppi.Scheduler.RetryPolicy.{default_retry_config, should_retry, Fraction}
use roboppi.Scheduler.Scheduler.{
  Timer, SchedulerConfig, InFlightJobInfo, Scheduler, new, notify, requeue, update, update_if,
  truthy, process_loop,
}
use roboppi.Scheduler.Scheduler.Events.{
  Event, submits, turns, acknowledges, answers, breaks, grants, cancels, completes, fires, drains,
  starts, stops, ends, step, run, put_back_after, release, forget, give_up, failed_with, retried,
  completed_with, completed_object, handle_job_completed, on_job_cancelled, fire, fired,
  drain_object, drain_each, on_drain_timeout, start, stop, core_killed, on_permit_granted,
}
use roboppi.Scheduler.Scheduler.Bounded.{
  IsBounded, Low, retry_allowed, update-IsBounded, update_if-IsBounded, bury-IsBounded,
  rest-IsBounded, submit_job-IsBounded, turn_at-IsBounded,
}
use roboppi.Scheduler.Scheduler.Unchanged.{objects-release}
use roboppi.Scheduler.Scheduler.Exchanges.{
  receive_answer-IsBounded, fail_exchange-IsBounded, acknowledge-IsBounded,
}

raised :
    (m a : ℕ) (o : Option InFlightJobInfo)
    → Option.map (λ j. j.attempt_index) o ≡ some a
    → a + 2 ≤ m
    → Low m
        (Option.map (λ (j : InFlightJobInfo). record j { attempt_index = j.attempt_index + 1 }) o)
raised m a none e l = tt
raised m a (some j) e l = ground (arith, e)

module _ (m : ℕ) where
  release-IsBounded :
      (key : Option String) (s : Scheduler) → IsBounded m s → IsBounded m (release key s)
  unfolding release
  release-IsBounded none s b = b
  release-IsBounded (some key) s b = rest-IsBounded m s _ refl refl refl b

  forget-IsBounded : (id : String) (s : Scheduler) → IsBounded m s → IsBounded m (forget id s)
  unfolding forget
  forget-IsBounded id s b = rest-IsBounded m s _ refl refl refl b

  give_up-IsBounded :
      (id : String) (i : InFlightJobInfo) (error : Option ErrorClass) (now : ℕ) (s : Scheduler)
      → Low m (some i)
      → IsBounded m s
      → IsBounded m (give_up id i error now s)
  unfolding give_up
  give_up-IsBounded id i error now s low b =
      forget-IsBounded id _ (bury-IsBounded m _ s (omega arith, low) b)

  -- The object of a job that completed still counts its attempts.
  same_count :
      (r : ℕ) (key : Option String) (i : InFlightJobInfo) (s : Scheduler)
      → s.objects r ≡ some i
      → Option.map
          (λ j. j.attempt_index)
          ((release key (update r (λ j. record j { processing = false }) s)).objects r)
        ≡ some i.attempt_index
  unfolding update
  same_count r key i s e =
      ap (λ f. attempts (f r)) (objects-release key _)
      ∙ if_holds (λ o. attempts o ≡ some i.attempt_index) (r == r)
          (λ _. ap (λ o. attempts (Option.map idle o)) e) (λ _. ap attempts e)
    where
      attempts : Option InFlightJobInfo → Option ℕ
      attempts = Option.map (λ j. j.attempt_index)

      idle : InFlightJobInfo → InFlightJobInfo
      idle j = record j { processing = false }

  failed_with-IsBounded :
      (id : String) (r : ℕ) (i : InFlightJobInfo) (error : Option ErrorClass) (random : Fraction)
      (now : ℕ) (s : Scheduler)
      → Option.map (λ j. j.attempt_index) (s.objects r) ≡ some i.attempt_index
      → Low m (some i)
      → IsBounded m s
      → IsBounded m (failed_with id r i error random now s)
  unfolding failed_with retried put_back_after
  failed_with-IsBounded id r i none random now s at_r low b =
      give_up-IsBounded id i none now s low b
  failed_with-IsBounded id r i (some error) random now s at_r low b =
      if_holds (IsBounded m) (should_retry s.retry_policy error i.attempt_index random).retry
        (λ again. rest-IsBounded m _ _ refl refl refl (
          update-IsBounded m r _ s
            (raised m i.attempt_index (s.objects r) at_r (
              subst (λ c. i.attempt_index + 2 ≤ c) b.policy
                (retry_allowed s.retry_policy error i.attempt_index random again)))
            b))
        (λ _. give_up-IsBounded id i (some error) now s low b)

  completed_with-IsBounded :
      (outcome : WorkerStatus) (id : String) (r : ℕ) (i : InFlightJobInfo)
      (error : Option ErrorClass) (random : Fraction) (now : ℕ) (s : Scheduler)
      → Option.map (λ j. j.attempt_index) (s.objects r) ≡ some i.attempt_index
      → Low m (some i)
      → IsBounded m s
      → IsBounded m (completed_with outcome id r i error random now s)
  unfolding completed_with
  completed_with-IsBounded succeeded id r i error random now s at_r low b = forget-IsBounded id s b
  completed_with-IsBounded cancelled id r i error random now s at_r low b = forget-IsBounded id s b
  completed_with-IsBounded failed id r i error random now s at_r low b =
      failed_with-IsBounded id r i error random now s at_r low b

  completed_object-IsBounded :
      (outcome : WorkerStatus) (id : String) (r : ℕ) (o : Option InFlightJobInfo)
      (error : Option ErrorClass) (random : Fraction) (now : ℕ) (s : Scheduler)
      → s.objects r ≡ o
      → IsBounded m s
      → IsBounded m (completed_object outcome id r o error random now s)
  unfolding completed_object update_if
  completed_object-IsBounded outcome id r none error random now s e b = b
  completed_object-IsBounded outcome id r (some i) error random now s e b =
      completed_with-IsBounded outcome id r i error random now _
        (same_count r (truthy i.job.key) i s e) (subst (Low m) e (b.counts r))
        (release-IsBounded (truthy i.job.key) _
          (update_if-IsBounded m (some r) (λ j. record j { processing = false }) s (λ i. refl) b))

  handle_job_completed-IsBounded :
      (id : String) (outcome : WorkerStatus) (error : Option ErrorClass) (random : Fraction)
      (now : ℕ) (s : Scheduler)
      → IsBounded m s
      → IsBounded m (handle_job_completed id outcome error random now s)
  unfolding handle_job_completed
  handle_job_completed-IsBounded id outcome error random now s b =
      elim (Option-cases (Dict.get id s.job_info)) [
        | inl e ↦ rw (e, handle_job_completed) b
        | inr (r, e) ↦
            rw (e, handle_job_completed)
              (completed_object-IsBounded outcome id r (s.objects r) error random now s refl b)
      ]

  on_job_cancelled-IsBounded :
      (id : String) (s : Scheduler) → IsBounded m s → IsBounded m (on_job_cancelled id s)
  unfolding on_job_cancelled
  on_job_cancelled-IsBounded id s b = elim (Option-cases (Dict.get id s.job_info)) [
    | inl e ↦ rw (e, on_job_cancelled) b
    | inr (r, e) ↦ rw (e, on_job_cancelled) (forget-IsBounded id _ (release-IsBounded _ s b))
  ]

  fired-IsBounded : (o : Option Timer) (s : Scheduler) → IsBounded m s → IsBounded m (fired o s)
  unfolding fired requeue notify
  fired-IsBounded none s b = b
  fired-IsBounded (some t) s b =
      if_holds (IsBounded m) s.running (λ _. rest-IsBounded m s _ refl refl refl b) (λ _. b)

  drain_object-IsBounded :
      (id : String) (o : Option InFlightJobInfo) (now : ℕ) (s : Scheduler)
      → Low m o
      → IsBounded m s
      → IsBounded m (drain_object id o now s)
  unfolding drain_object
  drain_object-IsBounded id none now s low b = b
  drain_object-IsBounded id (some i) now s low b =
      if_holds (IsBounded m) i.processing
        (λ _.
          forget-IsBounded id _
            (release-IsBounded (truthy i.job.key) _ (bury-IsBounded m _ s (omega arith, low) b)))
        (λ _. b)

  drain_each-IsBounded :
      (d : Dict ℕ) (now : ℕ) (s : Scheduler) → IsBounded m s → IsBounded m (drain_each d now s)
  unfolding drain_each
  drain_each-IsBounded [] now s b = b
  drain_each-IsBounded ((id, r) ∷ d) now s b =
      drain_each-IsBounded d now _ (drain_object-IsBounded id (s.objects r) now s (b.counts r) b)

  start-IsBounded : (spawned : Bool) (s : Scheduler) → IsBounded m s → IsBounded m (start spawned s)
  unfolding start
  start-IsBounded spawned s b =
      if_holds (IsBounded m) s.running (λ _. b)
        (λ _.
          if_holds (IsBounded m) spawned (λ _. rest-IsBounded m s _ refl refl refl b)
            (λ _. rest-IsBounded m s _ refl refl refl b))

  step-IsBounded : (e : Event) (s : Scheduler) → IsBounded m s → IsBounded m (step e s)
  unfolding step process_loop on_permit_granted on_drain_timeout fire stop notify core_killed
  step-IsBounded (submits job policy now) s b = submit_job-IsBounded m job policy now s b
  step-IsBounded (turns x y) s b = turn_at-IsBounded m s.loop x y s b
  step-IsBounded (acknowledges id) s b = acknowledge-IsBounded m id _ s b
  step-IsBounded (answers id rejected random) s b =
      receive_answer-IsBounded m id rejected random _ s b
  step-IsBounded (breaks id random) s b = fail_exchange-IsBounded m id random _ s b
  step-IsBounded (grants id) s b = update_if-IsBounded m _ _ s (λ i. refl) b
  step-IsBounded (cancels id) s b = on_job_cancelled-IsBounded id s b
  step-IsBounded (completes id outcome error random now) s b =
      handle_job_completed-IsBounded id outcome error random now s b
  step-IsBounded (fires n) s b = fired-IsBounded _ _ (rest-IsBounded m s _ refl refl refl b)
  step-IsBounded (drains now) s b = drain_each-IsBounded s.job_info now s b
  step-IsBounded (starts spawned) s b = start-IsBounded spawned s b
  step-IsBounded stops s b = rest-IsBounded m s _ refl refl refl b
  step-IsBounded ends s b = rest-IsBounded m s _ refl refl refl b

  run-IsBounded : (es : List Event) (s : Scheduler) → IsBounded m s → IsBounded m (run es s)
  unfolding run
  run-IsBounded [] s b = b
  run-IsBounded (e ∷ es) s b = run-IsBounded es (step e s) (step-IsBounded e s b)

abbrev pub max_attempts_of : SchedulerConfig → ℕ
max_attempts_of config = (or_default config.retry default_retry_config).max_attempts

-- Whatever happens to a scheduler after it was made, no job is counted as attempted more often than
-- `max_attempts` allows, once at least, and each dead letter was attempted at least once and not more often
-- than that.
pub run-new-IsBounded :
    (config : SchedulerConfig) (es : List Event)
    → IsBounded (max_attempts_of config) (run es (new config))
unfolding new DeadLetterQueue.new
run-new-IsBounded config es =
    run-IsBounded (max_attempts_of config) es (new config)
      (record { policy = refl; counts = λ r. tt; letters = tt })
