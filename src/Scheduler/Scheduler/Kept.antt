-- ===== src/Scheduler/Scheduler/Kept.antt =====
-- When src/scheduler/index.ts forgets a job.
use roboppi.Base.{
  ℕ, String, ◌≡◌, refl, ap, subst, ◌∙◌, inl, inr, false, Option, none, some, Option-cases,
}
use roboppi.Base.Dict
use roboppi.Base.Dict.{Dict, Unique, get-set, get-delete}
use roboppi.Types.{Job, ErrorClass}
use roboppi.Ipc.Messages.{WorkerStatus}
use roboppi.Scheduler.InflightRegistry.{
  DeduplicationPolicy, RegisterResult, proceeds, coalesces, rejects, Registry,
}
use roboppi.Scheduler.RetryPolicy.{Fraction}
use roboppi.Scheduler.Scheduler.{
  InFlightJobInfo, Scheduler, admit, requeue, notify, registered, submit_job, truthy, update,
  process_loop,
}
use roboppi.Scheduler.Scheduler.Reasons.{
  Explains, deleted, not_set, kept, completed_explained, explained_id,
}
use roboppi.Scheduler.Scheduler.Drained.{drained}
use roboppi.Scheduler.Scheduler.Unchanged.{
  info-turn_at, info-acknowledge, info-update_if, info-receive_answer, info-fail_exchange,
  info-release, info-fired, info-start,
}
use roboppi.Scheduler.Scheduler.Events.{
  release, forget, completed_with, completed_object, handle_job_completed, on_permit_granted,
  key_of, on_job_cancelled, fire, on_drain_timeout, stop, core_killed, nth_timer, Event, submits,
  turns, acknowledges, answers, breaks, grants, cancels, completes, fires, drains, starts, stops,
  ends, step,
}

module _ (id : String) (r : ℕ) (i : InFlightJobInfo) (s : Scheduler)
    (had : Dict.get id s.job_info ≡ some r) (at_r : s.objects r ≡ some i) where
  -- The object that a number of the job stands for.
  same_object :
      (j : String) (q : ℕ) (k : InFlightJobInfo)
      → j ≡ id
      → Dict.get j s.job_info ≡ some q
      → s.objects q ≡ some k
      → k ≡ i
  same_object j q k same at_j at_q =
      let q_is_r : q ≡ r = cc (at_j, same, had) in cc (at_q, at_r, q_is_r)

  known_explained :
      (outcome : WorkerStatus) (j : String) (q : ℕ) (k : InFlightJobInfo)
      (error : Option ErrorClass) (random : Fraction) (now : ℕ)
      → Dict.get j s.job_info ≡ some q
      → s.objects q ≡ some k
      → Dict.get id (completed_object outcome j q (some k) error random now s).job_info ≡ none
      → Explains id i
          (completed_object outcome j q (some k) error random now s)
          (completes j outcome error random now)
  unfolding completed_object update
  known_explained outcome j q k error random now at_j at_q gone =
      let idle : Scheduler = update q (λ l. record l { processing = false }) s in
      let after = release (truthy k.job.key) idle in
      let e =
        completed_explained id r k outcome j q error random now after
          (ap (Dict.get id) (info-release (truthy k.job.key) idle) ∙ had) gone in
      subst
        (λ x.
          Explains id x (completed_with outcome j q k error random now after)
            (completes j outcome error random now))
        (same_object j q k
          (explained_id id j k (completed_with outcome j q k error random now after) outcome error
            random now e)
          at_j at_q)
        e

  object_explained :
      (outcome : WorkerStatus) (j : String) (q : ℕ) (o : Option InFlightJobInfo)
      (error : Option ErrorClass) (random : Fraction) (now : ℕ)
      → Dict.get j s.job_info ≡ some q
      → s.objects q ≡ o
      → Dict.get id (completed_object outcome j q o error random now s).job_info ≡ none
      → Explains id i
          (completed_object outcome j q o error random now s)
          (completes j outcome error random now)
  unfolding completed_object
  object_explained outcome j q none error random now at_j at_q gone =
      absurd (kept id r s.job_info s.job_info refl had gone)
  object_explained outcome j q (some k) error random now at_j at_q gone =
      known_explained outcome j q k error random now at_j at_q gone

  handle_explained :
      (outcome : WorkerStatus) (j : String) (error : Option ErrorClass) (random : Fraction)
      (now : ℕ)
      → Dict.get id (handle_job_completed j outcome error random now s).job_info ≡ none
      → Explains id i
          (handle_job_completed j outcome error random now s)
          (completes j outcome error random now)
  unfolding handle_job_completed
  handle_explained outcome j error random now = elim (Option-cases (Dict.get j s.job_info)) [
    | inl e ↦
        subst
          (λ t.
            Dict.get id t.job_info ≡ none → Explains id i t (completes j outcome error random now))
          (unknown e) (λ gone. absurd (kept id r s.job_info s.job_info refl had gone))
    | inr (q, e) ↦
        subst
          (λ t.
            Dict.get id t.job_info ≡ none → Explains id i t (completes j outcome error random now))
          (found q e) (object_explained outcome j q (s.objects q) error random now e refl)
  ]
    where
      unknown : Dict.get j s.job_info ≡ none → s ≡ handle_job_completed j outcome error random now s
      unknown e = rw (e, handle_job_completed) refl

      found :
          (q : ℕ)
          → Dict.get j s.job_info ≡ some q
          → completed_object outcome j q (s.objects q) error random now s
            ≡ handle_job_completed j outcome error random now s
      found q e = rw (e, handle_job_completed) refl

  cancelled_explained : (j : String) → Dict.get id (on_job_cancelled j s).job_info ≡ none → j ≡ id
  unfolding on_job_cancelled forget
  cancelled_explained j = elim (Option-cases (Dict.get j s.job_info)) [
    | inl e ↦
        rw (e, on_job_cancelled) (λ gone. absurd (kept id r s.job_info s.job_info refl had gone))
    | inr (q, e) ↦
        rw (e, on_job_cancelled)
          (deleted id r j (release (truthy (key_of (s.objects q))) s).job_info
            (ap (Dict.get id) (info-release (truthy (key_of (s.objects q))) s) ∙ had))
  ]

  registered_keeps :
      (a : RegisterResult × Registry) (key : String) (job : Job) (now : ℕ)
      → Dict.get id (registered a key job now s).1.job_info ≡ none
      → ⊥
  unfolding registered admit requeue notify
  registered_keeps (rejects h, m) key job now gone = kept id r s.job_info s.job_info refl had gone
  registered_keeps (coalesces h, m) key job now gone = kept id r s.job_info s.job_info refl had gone
  registered_keeps (proceeds c, m) key job now gone =
      not_set id r job.job_id s.next_object s.job_info had gone

  submit_keeps :
      (job : Job) (policy : Option DeduplicationPolicy) (now : ℕ)
      → Dict.get id (submit_job job policy now s).1.job_info ≡ none
      → ⊥
  unfolding submit_job admit requeue notify
  submit_keeps job policy now = elim (Option-cases (truthy job.key)) [
    | inl e ↦ rw (e, submit_job) (not_set id r job.job_id s.next_object s.job_info had)
    | inr (key, e) ↦ rw (e, submit_job) (registered_keeps _ key job now)
  ]

-- A job that the scheduler knows is forgotten by an event only if that is a report that the job succeeded or
-- was cancelled, or one that it failed, and then the last dead letter is of the job and counts one attempt
-- more than the job did; or if the event is the time limit of the drain, and the job was being processed.
pub forgotten_explained :
    (id : String) (r : ℕ) (i : InFlightJobInfo) (e : Event) (s : Scheduler)
    → Unique s.job_info
    → Dict.get id s.job_info ≡ some r
    → s.objects r ≡ some i
    → Dict.get id (step e s).job_info ≡ none
    → Explains id i (step e s) e
unfolding step process_loop on_permit_granted on_drain_timeout fire stop notify core_killed
forgotten_explained id r i (submits job policy now) s u had at_r gone =
    submit_keeps id r i s had at_r job policy now gone
forgotten_explained id r i (turns x y) s u had at_r gone =
    kept id r s.job_info _ (info-turn_at s.loop x y s) had gone
forgotten_explained id r i (acknowledges x) s u had at_r gone =
    kept id r s.job_info _ (info-acknowledge x (Dict.get x s.exchanges) s) had gone
forgotten_explained id r i (answers x rejected random) s u had at_r gone =
    kept id r s.job_info _ (info-receive_answer x rejected random (Dict.get x s.exchanges) s) had
      gone
forgotten_explained id r i (breaks x random) s u had at_r gone =
    kept id r s.job_info _ (info-fail_exchange x random (Dict.get x s.exchanges) s) had gone
forgotten_explained id r i (grants j) s u had at_r gone =
    kept id r s.job_info _ (info-update_if (Dict.get j s.job_info) _ s) had gone
forgotten_explained id r i (cancels j) s u had at_r gone =
    cancelled_explained id r i s had at_r j gone
forgotten_explained id r i (completes j outcome error random now) s u had at_r gone =
    handle_explained id r i s had at_r outcome j error random now gone
forgotten_explained id r i (fires n) s u had at_r gone =
    kept id r s.job_info _ (info-fired (nth_timer n s.timers) _) had gone
forgotten_explained id r i (drains now) s u had at_r gone =
    drained id r i now s.job_info s u (inr had) at_r had gone
forgotten_explained id r i (starts spawned) s u had at_r gone =
    kept id r s.job_info _ (info-start spawned s) had gone
forgotten_explained id r i stops s u had at_r gone = kept id r s.job_info s.job_info refl had gone
forgotten_explained id r i ends s u had at_r gone = kept id r s.job_info s.job_info refl had gone
