-- ===== src/Core/AgentCore/Stuck.antt =====
-- A job of src/core/agentcore.ts that is no worker task keeps its permit for good.
use roboppi.Base.{
  ℕ, ◌≡◌, refl, sym, ap, subst, ◌∙◌, inl, inr, String, str_eq, Bool, true, false, not, Option, none,
  some, List, [], ◌∷◌, if◌then◌else◌, Bool-cases, Option-cases,
}
use roboppi.Base.Dict
use roboppi.Base.Dict.{Dict, get-set, get-delete}
use roboppi.Base.Trim.{Text}
use roboppi.Worker.TaskPayload.{is_worker_task_job_payload}
use roboppi.Types.{Job}
use roboppi.Core.PermitGate
use roboppi.Core.PermitGate.{Permit, PermitGate, Clock}
use roboppi.Core.PermitGate.Actives.{adds, keeps, request_permit-Leaves}
use roboppi.Core.Cancellation.{create_controller}
use roboppi.Core.JobEventThrottle
use roboppi.Ipc.Messages.{
  OutboundMessage, permit_granted, permit_rejected, WorkerResult, InboundMessage, submit_job,
  cancel_job, request_permit, report_queue_metrics, heartbeat,
}
use roboppi.Core.AgentCore.{
  AgentCoreConfig, AgentCore, Stream, Delegation, new, forget, execute_worker_task, accept_permit,
  answer, register_job, duplicate, is_worker_task, cancel_known, on_submit_job, on_cancel_job,
  on_request_permit, request_registered, on_report_queue_metrics, on_heartbeat, Env, handle,
}
use roboppi.Core.AgentCore.Background.{
  Event, receives, streams, settles, watches, expires, starts, shuts_down, step, run, forward,
  forwarded, on_stream, on_settled, on_watchdog_tick, on_deadline, start, shutdown,
}
use roboppi.Core.AgentCore.Owners.{IsTracked, differ, some_inj, get-delete_miss}
use roboppi.Core.AgentCore.Granting.{idle, get-set_miss, get-set_hit}
use roboppi.Core.AgentCore.Tracked.{
  handle-IsTracked, run-IsTracked, new-IsTracked, IsFresh, AllFresh, step-IsTracked,
  register_job-IsTracked, register_job-cancellation,
}

-- The permit is recorded for the job, and no task runs under it.
pub record IsHeld (job_id id : String) (c : AgentCore) : Type 0 where
  pub recorded : Dict.get job_id c.active_permits_by_job ≡ some id
  pub idle : Dict.get id c.delegations ≡ none

module _ (job_id id : String) where
  same-IsHeld :
      (c d : AgentCore)
      → d.active_permits_by_job ≡ c.active_permits_by_job
      → d.delegations ≡ c.delegations
      → IsHeld job_id id c
      → IsHeld job_id id d
  same-IsHeld c d a s h = record {
    recorded = ap (Dict.get job_id) a ∙ h.recorded;
    idle = ap (Dict.get id) s ∙ h.idle;
  }

  -- What is recorded for another job, or runs under another permit, does not matter.
  accept_permit-IsHeld :
      (raw : Option Text) (request_id : String) (job : Job) (p : Permit) (c : AgentCore)
      → str_eq job.job_id job_id ≡ false
      → str_eq p.permit_id id ≡ false
      → IsHeld job_id id c
      → IsHeld job_id id (accept_permit raw request_id job p c).1
  unfolding accept_permit execute_worker_task forget
  accept_permit-IsHeld raw request_id job p c other apart h =
      let set_a =
        get-set_miss job.job_id job_id p.permit_id c.active_permits_by_job other ∙ h.recorded in
      elim (Bool-cases (is_worker_task job.type)) [
        | inr plain ↦ rw (plain, accept_permit) (record { recorded = set_a; idle = h.idle })
        | inl worker ↦
            rw (worker, accept_permit)
              (elim (Bool-cases (is_worker_task_job_payload job.payload)) [
                | inl valid ↦
                    rw (valid, execute_worker_task)
                      (record {
                        recorded = set_a;
                        idle = get-set_miss p.permit_id id _ c.delegations apart ∙ h.idle;
                      })
                | inr invalid ↦
                    rw (invalid, execute_worker_task)
                      (record {
                        recorded = get-delete_miss job.job_id job_id _ other ∙ set_a;
                        idle = h.idle;
                      })
              ])
      ]

  request_registered-IsHeld :
      (raw : Option Text) (new_id : String) (clock : Clock) (request_id : String) (job : Job)
      (attempt : ℕ) (c : AgentCore)
      → Dict.get new_id c.cancellation.permit_to_job ≡ none
      → IsTracked c
      → IsHeld job_id id c
      → IsHeld job_id id (request_registered raw new_id clock request_id job attempt c).1
  unfolding request_registered answer
  request_registered-IsHeld raw new_id clock request_id job attempt c unused t h =
      elim (Option-cases (Dict.get job.job_id c.active_permits_by_job)) [
        | inr (existing, e) ↦ rw (e, request_registered) h
        | inl free ↦
            rw (free, request_registered)
              (elim (request_permit-Leaves job attempt new_id clock c.permit_gate) [
                | adds p r at_id of_job g ↦
                    rw (r, answer)
                      (accept_permit-IsHeld raw request_id job p _
                        (differ job.job_id job_id none (some id)
                          (λ x. Dict.get x c.active_permits_by_job) free h.recorded (λ e. cc e))
                        (differ p.permit_id id none (some job_id)
                          (λ x. Dict.get x c.cancellation.permit_to_job)
                          (ap (λ x. Dict.get x c.cancellation.permit_to_job) at_id ∙ unused)
                          (t.owned job_id id h.recorded).0 (λ e. cc e))
                        (same-IsHeld c _ refl refl h))
                | keeps n r g ↦ rw (r, answer) (same-IsHeld c _ refl refl h)
              ])
      ]

  register_job-IsHeld :
      (job : Job) (c : AgentCore) → IsHeld job_id id c → IsHeld job_id id (register_job job c)
  unfolding register_job
  register_job-IsHeld job c h = elim (Bool-cases (Dict.has job.job_id c.jobs)) [
    | inl known ↦ rw (known, register_job) h
    | inr new_one ↦ rw (new_one, register_job) (same-IsHeld c _ refl refl h)
  ]

  cancel_known-IsHeld :
      (o : Option String) (j reason : String) (c : AgentCore)
      → IsHeld job_id id c
      → IsHeld job_id id (cancel_known o j reason c)
  unfolding cancel_known
  cancel_known-IsHeld (some i) j reason c h = same-IsHeld c _ refl refl h
  cancel_known-IsHeld none j reason c h = same-IsHeld c _ refl refl h

  on_cancel_job-IsHeld :
      (request_id j reason : String) (c : AgentCore)
      → IsHeld job_id id c
      → IsHeld job_id id (on_cancel_job request_id j reason c).1
  unfolding on_cancel_job
  on_cancel_job-IsHeld request_id j reason c h = elim (Option-cases (Dict.get j c.jobs)) [
    | inl e ↦ rw (e, on_cancel_job) h
    | inr (job, e) ↦
        rw (e, on_cancel_job)
          (cancel_known-IsHeld (Dict.get j c.active_permits_by_job) j reason c h)
  ]

  handle-IsHeld :
      (env : Env) (message : InboundMessage) (c : AgentCore)
      → Dict.get env.permit_id c.cancellation.permit_to_job ≡ none
      → IsTracked c
      → IsHeld job_id id c
      → IsHeld job_id id (handle env message c).1
  unfolding handle on_submit_job on_report_queue_metrics on_heartbeat on_request_permit
  handle-IsHeld env (submit_job request_id job) c unused t h = same-IsHeld c _ refl refl h
  handle-IsHeld env (cancel_job request_id j reason) c unused t h =
      on_cancel_job-IsHeld request_id j reason c h
  handle-IsHeld env (request_permit request_id job attempt) c unused t h =
      request_registered-IsHeld env.raw env.permit_id env.clock request_id job attempt
        (register_job job c)
        (ap (λ x. Dict.get env.permit_id x.permit_to_job) (register_job-cancellation job c)
          ∙ unused)
        (register_job-IsTracked job c t) (register_job-IsHeld job c h)
  handle-IsHeld env (report_queue_metrics request_id depth age backlog) c unused t h =
      same-IsHeld c _ refl refl h
  handle-IsHeld env (heartbeat timestamp) c unused t h = h

  forward-IsHeld :
      (i : String) (now : ℕ) (call : JobEventThrottle.Call) (d : Delegation) (o : Option Stream)
      (c : AgentCore)
      → str_eq i id ≡ false
      → IsHeld job_id id c
      → IsHeld job_id id (forward i now call d o c).1
  unfolding forward forwarded
  forward-IsHeld i now call d none c apart h = h
  forward-IsHeld i now call d (some s) c apart h = record {
    recorded = h.recorded;
    idle = get-set_miss i id _ c.delegations apart ∙ h.idle;
  }

  -- A task that runs has another permit.
  apart_from :
      (i : String) (d : Delegation) (c : AgentCore)
      → Dict.get i c.delegations ≡ some d
      → IsHeld job_id id c
      → str_eq i id ≡ false
  apart_from i d c e h =
      differ i id (some d) none (λ x. Dict.get x c.delegations) e h.idle (λ f. cc f)

  on_stream-IsHeld :
      (i : String) (now : ℕ) (call : JobEventThrottle.Call) (c : AgentCore)
      → IsHeld job_id id c
      → IsHeld job_id id (on_stream i now call (Dict.get i c.delegations) c).1
  unfolding on_stream
  on_stream-IsHeld i now call c h = elim (Option-cases (Dict.get i c.delegations)) [
    | inl e ↦ rw (e, on_stream) h
    | inr (d, e) ↦
        rw (e, on_stream) (forward-IsHeld i now call d d.stream c (apart_from i d c e h) h)
  ]

  on_settled-IsHeld :
      (i : String) (now : ℕ) (result : Option WorkerResult) (c : AgentCore)
      → IsTracked c
      → IsHeld job_id id c
      → IsHeld job_id id (on_settled i now result (Dict.get i c.delegations) c).1
  unfolding on_settled forget
  on_settled-IsHeld i now result c t h = elim (Option-cases (Dict.get i c.delegations)) [
    | inl e ↦ rw (e, on_settled) h
    | inr (d, e) ↦
        rw (e, on_settled)
          (record {
            recorded =
                get-delete_miss d.job.job_id job_id c.active_permits_by_job (
                  differ d.job.job_id job_id (some i) (some id)
                    (λ x. Dict.get x c.active_permits_by_job) (t.delegated i d e) h.recorded
                    (λ f. cc (some_inj i id f, apart_from i d c e h)))
                ∙ h.recorded;
            idle = get-delete_miss i id c.delegations (apart_from i d c e h) ∙ h.idle;
          })
  ]

  either-IsHeld :
      (b : Bool) (c d : AgentCore)
      → IsHeld job_id id c
      → IsHeld job_id id d
      → IsHeld job_id id (if b then c else d)
  either-IsHeld true c d h k = h
  either-IsHeld false c d h k = k

  step-IsHeld :
      (e : Event) (c : AgentCore)
      → IsFresh e c
      → IsTracked c
      → IsHeld job_id id c
      → IsHeld job_id id (step e c).1
  unfolding step on_watchdog_tick on_deadline start shutdown
  step-IsHeld (receives env message) c f t h = handle-IsHeld env message c f t h
  step-IsHeld (streams i now call) c f t h = on_stream-IsHeld i now call c h
  step-IsHeld (settles i now result) c f t h = on_settled-IsHeld i now result c t h
  step-IsHeld (watches collect now) c f t h = same-IsHeld c _ refl refl h
  step-IsHeld (expires i now) c f t h = same-IsHeld c _ refl refl h
  step-IsHeld starts c f t h = either-IsHeld c.started c _ h (same-IsHeld c _ refl refl h)
  step-IsHeld shuts_down c f t h = either-IsHeld (not c.started) c _ h (same-IsHeld c _ refl refl h)

  run-IsHeld :
      (es : List Event) (c : AgentCore)
      → AllFresh es c
      → IsTracked c
      → IsHeld job_id id c
      → IsHeld job_id id (run es c)
  unfolding run
  run-IsHeld [] c f t h = h
  run-IsHeld (e ∷ es) c f t h =
      run-IsHeld es (step e c).1 f.1 (step-IsTracked e c f.0 t) (step-IsHeld e c f.0 t h)

-- The permit in an answer that grants one.
permit_in : List OutboundMessage → Permit → Permit
permit_in (permit_granted request_id p ∷ _) d = p
permit_in _ d = d

granted-IsHeld :
    (raw : Option Text) (id : String) (clock : Clock) (request_id : String) (job : Job)
    (attempt : ℕ) (p : Permit) (c : AgentCore)
    → IsTracked c
    → Dict.get id c.cancellation.permit_to_job ≡ none
    → is_worker_task job.type ≡ false
    → (request_registered raw id clock request_id job attempt c).0
      ≡ permit_granted request_id p ∷ []
    → IsHeld job.job_id p.permit_id (request_registered raw id clock request_id job attempt c).1
unfolding request_registered answer accept_permit permit_in
granted-IsHeld raw id clock request_id job attempt p c t unused plain h =
    elim (Option-cases (Dict.get job.job_id c.active_permits_by_job)) [
      | inr (existing, e) ↦ absurd (cc (rw (e, request_registered) at h))
      | inl free ↦ elim (request_permit-Leaves job attempt id clock c.permit_gate) [
        | keeps n r g ↦ absurd (cc (rw (r, answer) at (rw (free, request_registered) at h)))
        | adds q r at_id of_job g ↦
            let unused_q = ap (λ x. Dict.get x c.cancellation.permit_to_job) at_id ∙ unused in
            let after : AgentCore = record c {
              permit_gate = (PermitGate.request_permit job attempt id clock c.permit_gate).1;
              cancellation = create_controller q.permit_id (some job.job_id) c.cancellation;
              active_permits_by_job = Dict.set job.job_id q.permit_id c.active_permits_by_job;
            } in
            let e : request_registered raw id clock request_id job attempt c
                ≡ (permit_granted request_id q ∷ [], after) =
              rw (free, request_registered) (rw (r, answer) (rw (plain, accept_permit) refl)) in
            let same : q ≡ p = ap (λ o. permit_in o.0 p) (sym e) ∙ ap (λ l. permit_in l p) h in
            let held : IsHeld job.job_id q.permit_id after = record {
              recorded = get-set_hit job.job_id q.permit_id c.active_permits_by_job;
              idle = idle c t job q.permit_id free unused_q;
            } in
            subst
              (λ x.
                IsHeld job.job_id x.permit_id
                  (request_registered raw id clock request_id job attempt c).1)
              same (subst (λ o. IsHeld job.job_id q.permit_id o.1) (sym e) held)
      ]
    ]

held_refuses :
    (raw : Option Text) (new_id : String) (clock : Clock) (request_id : String) (job : Job)
    (attempt : ℕ) (id : String) (c : AgentCore)
    → IsHeld job.job_id id c
    → (request_registered raw new_id clock request_id job attempt c).0
      ≡ permit_rejected request_id (duplicate job id) ∷ []
unfolding request_registered
held_refuses raw new_id clock request_id job attempt id c h =
    rw (h.recorded, request_registered) refl

-- Once a job that is no worker task has been granted a permit, every later request for a job of its id is
-- refused as a duplicate, whatever happens in between: the job is cancelled, the permit's deadline passes,
-- other jobs run, or the core shuts down and starts again.
pub plain_job_blocked :
    (config : AgentCoreConfig) (before after : List Event) (env later : Env)
    (request_id next_id : String) (job next : Job) (attempt next_attempt : ℕ) (p : Permit)
    → AllFresh before (new config)
    → let c = run before (new config) in
      Dict.get env.permit_id c.cancellation.permit_to_job ≡ none
      → is_worker_task job.type ≡ false
      → (handle env (request_permit request_id job attempt) c).0 ≡ permit_granted request_id p ∷ []
      → AllFresh after (handle env (request_permit request_id job attempt) c).1
      → next.job_id ≡ job.job_id
      → (handle later
          (request_permit next_id next next_attempt)
          (run after (handle env (request_permit request_id job attempt) c).1)).0
        ≡ permit_rejected next_id (duplicate next p.permit_id) ∷ []
unfolding handle on_request_permit
plain_job_blocked config before after env later request_id next_id job next attempt next_attempt p f
      unused plain h g same =
    let c0 = run before (new config) in
    let t0 = run-IsTracked before (new config) f (new-IsTracked config) in
    let unused' =
      ap (λ x. Dict.get env.permit_id x.permit_to_job) (register_job-cancellation job c0)
      ∙ unused in
    let c1 =
      (request_registered env.raw env.permit_id env.clock request_id job attempt
        (register_job job c0)).1 in
    let t1 : IsTracked c1 =
      handle-IsTracked env (request_permit request_id job attempt) c0 unused t0 in
    let held =
      granted-IsHeld env.raw env.permit_id env.clock request_id job attempt p (register_job job c0)
        (register_job-IsTracked job c0 t0) unused' plain h in
    let kept = run-IsHeld job.job_id p.permit_id after c1 g t1 held in
    held_refuses later.raw later.permit_id later.clock next_id next next_attempt p.permit_id
      (register_job next (run after c1))
      (subst (λ x. IsHeld x p.permit_id (register_job next (run after c1))) (sym same)
        (register_job-IsHeld job.job_id p.permit_id next (run after c1) kept))
