-- ===== src/Scheduler/Scheduler/Examples.antt =====
-- A job of src/scheduler/index.ts that is submitted, granted, fails, and runs again.
use roboppi.Base.{
  ℕ, String, str_eq, ◌≡◌, refl, true, false, Option, none, some, List, [], ◌∷◌, map, if◌then◌else◌,
}
use roboppi.Base.Dict
use roboppi.Types.{Job, batch, maintenance, retryable_network, fatal}
use roboppi.Ipc.Messages.{failed}
use roboppi.Scheduler.InflightRegistry.{lookup, reject, latest_wins}
use roboppi.Scheduler.RetryPolicy.{Fraction}
use roboppi.Scheduler.Scheduler.{
  SchedulerConfig, InFlightJobInfo, Scheduler, accepted, new, submit_job,
}
use roboppi.Scheduler.Scheduler.Events.{
  Event, submits, turns, acknowledges, answers, breaks, grants, completes, fires, drains, starts,
  stops, ends, step, run, handle_job_completed,
}
use roboppi.Scheduler.Scheduler.Attempts.{run-new-IsBounded, max_attempts_of}
use roboppi.Scheduler.Scheduler.Bounded.{IsBounded}
use roboppi.Scheduler.Scheduler.Keys.{submit_job-handle_job_completed}
use roboppi.Scheduler.Scheduler.Reasons.{Explains}
use roboppi.Scheduler.Scheduler.Kept.{forgotten_explained}

abbrev job : String → Job
job id = record {
  job_id = id;
  type = maintenance;
  priority = record { value = 1; class = batch };
  key = some "k";
  payload = none;
  limits = record { timeout_ms = 1000; max_attempts = 3; cost_hint = none; retry_budget_ms = none };
}

abbrev defaults : SchedulerConfig
defaults = record { retry = none; default_policy = none }

abbrev half : Fraction
half = record { num = 1; den = 2 }

all_open : Unit {0}
unfolding roboppi.Scheduler.Scheduler.new roboppi.Scheduler.Scheduler.compute_backoff_delay
    roboppi.Scheduler.Scheduler.truthy roboppi.Scheduler.Scheduler.notify
    roboppi.Scheduler.Scheduler.requeue roboppi.Scheduler.Scheduler.admit
    roboppi.Scheduler.Scheduler.registered roboppi.Scheduler.Scheduler.submit_job
    roboppi.Scheduler.Scheduler.update roboppi.Scheduler.Scheduler.update_if
    roboppi.Scheduler.Scheduler.taken roboppi.Scheduler.Scheduler.process_next
    roboppi.Scheduler.Scheduler.turn_at roboppi.Scheduler.Scheduler.process_loop
    roboppi.Scheduler.Scheduler.Events.put_back_after roboppi.Scheduler.Scheduler.Events.back_off
    roboppi.Scheduler.Scheduler.Events.answered roboppi.Scheduler.Scheduler.Events.close
    roboppi.Scheduler.Scheduler.Events.acknowledge roboppi.Scheduler.Scheduler.Events.receive_answer
    roboppi.Scheduler.Scheduler.Events.fail_exchange
    roboppi.Scheduler.Scheduler.Events.on_permit_granted roboppi.Scheduler.Scheduler.Events.release
    roboppi.Scheduler.Scheduler.Events.forget roboppi.Scheduler.Scheduler.Events.bury
    roboppi.Scheduler.Scheduler.Events.give_up roboppi.Scheduler.Scheduler.Events.retried
    roboppi.Scheduler.Scheduler.Events.failed_with roboppi.Scheduler.Scheduler.Events.completed_with
    roboppi.Scheduler.Scheduler.Events.completed_object
    roboppi.Scheduler.Scheduler.Events.handle_job_completed
    roboppi.Scheduler.Scheduler.Events.on_job_cancelled roboppi.Scheduler.Scheduler.Events.nth_timer
    roboppi.Scheduler.Scheduler.Events.without_nth roboppi.Scheduler.Scheduler.Events.fired
    roboppi.Scheduler.Scheduler.Events.fire roboppi.Scheduler.Scheduler.Events.has_in_flight
    roboppi.Scheduler.Scheduler.Events.drain_object roboppi.Scheduler.Scheduler.Events.drain_each
    roboppi.Scheduler.Scheduler.Events.on_drain_timeout roboppi.Scheduler.Scheduler.Events.start
    roboppi.Scheduler.Scheduler.Events.stop roboppi.Scheduler.Scheduler.Events.core_killed
    roboppi.Scheduler.Scheduler.Events.oldest
    roboppi.Scheduler.Scheduler.Events.report_queue_metrics roboppi.Scheduler.Scheduler.Events.step
    roboppi.Scheduler.Scheduler.Events.run roboppi.Scheduler.JobQueue.higher_priority
    roboppi.Scheduler.JobQueue.swap roboppi.Scheduler.JobQueue.sift_up
    roboppi.Scheduler.JobQueue.better roboppi.Scheduler.JobQueue.best_of
    roboppi.Scheduler.JobQueue.sift_down roboppi.Scheduler.JobQueue.enqueue
    roboppi.Scheduler.JobQueue.drop_last roboppi.Scheduler.JobQueue.remove_top
    roboppi.Scheduler.JobQueue.dequeue roboppi.Scheduler.JobQueue.peek
    roboppi.Scheduler.InflightRegistry.register_over roboppi.Scheduler.InflightRegistry.register
    roboppi.Scheduler.InflightRegistry.deregister roboppi.Scheduler.InflightRegistry.lookup
    roboppi.Scheduler.InflightRegistry.is_in_flight roboppi.Scheduler.RetryPolicy.is_retryable
    roboppi.Scheduler.RetryPolicy.capped_delay roboppi.Scheduler.RetryPolicy.should_retry
    roboppi.Scheduler.DeadLetterQueue.parse_lines roboppi.Scheduler.DeadLetterQueue.load_from_file
    roboppi.Scheduler.DeadLetterQueue.new roboppi.Scheduler.DeadLetterQueue.to_lines
    roboppi.Scheduler.DeadLetterQueue.append_entry roboppi.Scheduler.DeadLetterQueue.rewrite_file
    roboppi.Scheduler.DeadLetterQueue.push roboppi.Scheduler.DeadLetterQueue.peek
    roboppi.Scheduler.DeadLetterQueue.pop roboppi.Scheduler.DeadLetterQueue.clear
    roboppi.Scheduler.DeadLetterQueue.step roboppi.Scheduler.DeadLetterQueue.run
    roboppi.Base.Dict.get roboppi.Base.Dict.has roboppi.Base.Dict.set roboppi.Base.Dict.delete
all_open = tt

-- The job is taken, but its permit is rejected; it comes back, is granted and fails.
abbrev fails_once : List Event
fails_once =
    starts true
    ∷ submits (job "a") none 5
    ∷ turns "s1" "p1"
    ∷ acknowledges "s1"
    ∷ answers "s1" true half
    ∷ fires 0
    ∷ turns "s2" "p2"
    ∷ acknowledges "s2"
    ∷ grants "a"
    ∷ answers "s2" false half
    ∷ completes "a" failed (some retryable_network) half 90
    ∷ []

run-new-IsBounded_example : IsBounded (max_attempts_of defaults) (run fails_once (new defaults))
run-new-IsBounded_example = run-new-IsBounded defaults fails_once

-- The map's object of the first job.
abbrev first_object : Scheduler → Option InFlightJobInfo
first_object s = s.objects 0

fails_once-run :
    first_object (run fails_once (new defaults))
    ≡ some (record {
      job = job "a";
      attempt_index = 1;
      processing = false;
      enqueued_at = 5;
      backoff_count = 0;
    })
unfolding all_open
fails_once-run = refl

-- A rejected permit is asked for again within 500 ms, a failed job is run again within a second.
delays_run :
    map (λ t. t.delay_ms) (run fails_once (new defaults)).timers
    ≡ record { num = 1000; den = 2 } ∷ []
unfolding all_open
delays_run = refl

abbrev submitted : Scheduler
submitted =
    run (submits (job "a") none 5 ∷ submits (job "b") (some latest_wins) 6 ∷ []) (new defaults)

abbrev untried : InFlightJobInfo
untried = record {
  job = job "a";
  attempt_index = 0;
  processing = false;
  enqueued_at = 5;
  backoff_count = 0;
}

-- The newer job loses the key when the older one ends.
submit_job-handle_job_completed_example :
    let t = handle_job_completed "a" failed (some retryable_network) half 90 submitted in
    (lookup "k" t.inflight ≡ (if str_eq "k" "k" then none else lookup "k" submitted.inflight))
    × ((submit_job (job "c") (some reject) 99 t).0 ≡ accepted none)
    × (lookup "k" (submit_job (job "c") (some reject) 99 t).1.inflight ≡ some "c")
submit_job-handle_job_completed_example =
    submit_job-handle_job_completed "k" "k" "a" 0 untried failed (some retryable_network) half 90 99
      (job "c") (some reject) submitted (unfold all_open in refl) (unfold all_open in refl)
      (unfold all_open in refl) (unfold all_open in refl)

holder_run : lookup "k" submitted.inflight ≡ some "b"
unfolding all_open
holder_run = refl

forgotten_explained_example :
    Explains "a" untried
      (step (completes "a" failed (some fatal) half 90) submitted)
      (completes "a" failed (some fatal) half 90)
forgotten_explained_example =
    forgotten_explained "a" 0 untried (completes "a" failed (some fatal) half 90) submitted
      (unfold all_open in (refl, (refl, tt))) (unfold all_open in refl) (unfold all_open in refl)
      (unfold all_open in refl)
