-- ===== src/Core/AgentCore/Tracked.antt =====
-- Whose permits and tasks src/core/agentcore.ts keeps, in any history.
use roboppi.Base.{
  ℕ, ◌≡◌, refl, sym, ap, ◌∙◌, inl, inr, String, eq_refl, Bool, true, false, not, Option, none, some,
  List, [], ◌∷◌, if◌then◌else◌, Bool-cases, Option-cases,
}
use roboppi.Base.Dict
use roboppi.Base.Dict.{Dict, get-set, get-delete}
use roboppi.Base.Trim.{Text}
use roboppi.Types.{Job}
use roboppi.Core.PermitGate
use roboppi.Core.PermitGate.{Permit, PermitGate, Clock}
use roboppi.Core.PermitGate.Actives.{
  revoke_permit-Shrinks, fire-Shrinks, dispose-Shrinks, adds, keeps, request_permit-Leaves,
}
use roboppi.Core.JobEventThrottle
use roboppi.Ipc.Messages.{
  WorkerResult, InboundMessage, submit_job, cancel_job, request_permit, report_queue_metrics,
  heartbeat,
}
use roboppi.Core.AgentCore.{
  AgentCoreConfig, AgentCore, Stream, Delegation, new, forget, accept_permit, answer, register_job,
  is_worker_task, cancel_known, on_submit_job, on_cancel_job, on_request_permit, request_registered,
  on_report_queue_metrics, on_heartbeat, Env, handle,
}
use roboppi.Core.AgentCore.Background.{
  Event, receives, streams, settles, watches, expires, starts, shuts_down, step, run, forward,
  forwarded, on_stream, on_settled, on_watchdog_tick, on_deadline, start, shutdown,
}
use roboppi.Core.AgentCore.Owners.{IsTracked, gate-IsTracked, forget-IsTracked, get-delete_found}
use roboppi.Core.AgentCore.Granting.{
  here, there, found, recorded-IsTracked, execute_worker_task-IsTracked,
}

-- The id for a new permit was given to no job that still has it.
abbrev pub IsFresh : Event → AgentCore → Type 0
IsFresh (receives env _) c = Dict.get env.permit_id c.cancellation.permit_to_job ≡ none
IsFresh _ c = Unit

abbrev pub AllFresh : List Event → AgentCore → Type 0
AllFresh [] c = Unit
AllFresh (e ∷ es) c = IsFresh e c × AllFresh es (step e c).1

-- The invariant reads four parts of the state.
same-IsTracked :
    (c d : AgentCore)
    → d.permit_gate ≡ c.permit_gate
    → d.delegations ≡ c.delegations
    → d.active_permits_by_job ≡ c.active_permits_by_job
    → d.cancellation ≡ c.cancellation
    → IsTracked c
    → IsTracked d
same-IsTracked c d g s a m t = record {
  active = λ id p h.
      ap (Dict.get p.job_id) a ∙ t.active id p (ap (λ x. Dict.get id x.active_permits) (sym g) ∙ h);
  delegated =
      λ id e h. ap (Dict.get e.job.job_id) a ∙ t.delegated id e (ap (Dict.get id) (sym s) ∙ h);
  owned = λ k id h.
      let (mine, live) = t.owned k id (ap (Dict.get k) (sym a) ∙ h) in
      (
        ap (λ x. Dict.get id x.permit_to_job) m ∙ mine,
        ap (λ x. Dict.has id x.controllers) m ∙ live,
      );
}

accept_permit-IsTracked :
    (raw : Option Text) (request_id : String) (job : Job) (p : Permit) (gate : PermitGate)
    (c : AgentCore)
    → IsTracked c
    → Dict.get job.job_id c.active_permits_by_job ≡ none
    → Dict.get p.permit_id c.cancellation.permit_to_job ≡ none
    → p.job_id ≡ job.job_id
    → gate.active_permits ≡ Dict.set p.permit_id p c.permit_gate.active_permits
    → IsTracked (accept_permit raw request_id job p (record c { permit_gate = gate })).1
unfolding accept_permit
accept_permit-IsTracked raw request_id job p gate c t free unused e g =
    elim (Bool-cases (is_worker_task job.type)) [
      | inl worker ↦
          rw (worker, accept_permit)
            (execute_worker_task-IsTracked c t job p.permit_id free unused raw p gate e g)
      | inr other ↦
          rw (other, accept_permit) (recorded-IsTracked c t job p.permit_id free unused p gate e g)
    ]

request_registered-IsTracked :
    (raw : Option Text) (id : String) (clock : Clock) (request_id : String) (job : Job)
    (attempt : ℕ) (c : AgentCore)
    → Dict.get id c.cancellation.permit_to_job ≡ none
    → IsTracked c
    → IsTracked (request_registered raw id clock request_id job attempt c).1
unfolding request_registered answer
request_registered-IsTracked raw id clock request_id job attempt c unused t =
    elim (Option-cases (Dict.get job.job_id c.active_permits_by_job)) [
      | inr (existing, e) ↦ rw (e, request_registered) t
      | inl free ↦
          rw (free, request_registered)
            (elim (request_permit-Leaves job attempt id clock c.permit_gate) [
              | adds p r at_id of_job g ↦
                  rw (r, answer)
                    (accept_permit-IsTracked raw request_id job p _ c t free
                      (ap (λ x. Dict.get x c.cancellation.permit_to_job) at_id ∙ unused) of_job
                      (g ∙ ap (λ x. Dict.set x p c.permit_gate.active_permits) (sym at_id)))
              | keeps n r g ↦
                  rw (r, answer) (gate-IsTracked c _ (λ i p h. ap (Dict.get i) (sym g) ∙ h) t)
            ])
    ]

pub register_job-IsTracked :
    (job : Job) (c : AgentCore) → IsTracked c → IsTracked (register_job job c)
unfolding register_job
register_job-IsTracked job c t = elim (Bool-cases (Dict.has job.job_id c.jobs)) [
  | inl known ↦ rw (known, register_job) t
  | inr new_one ↦ rw (new_one, register_job) (same-IsTracked c _ refl refl refl refl t)
]

pub register_job-cancellation :
    (job : Job) (c : AgentCore) → (register_job job c).cancellation ≡ c.cancellation
unfolding register_job
register_job-cancellation job c = elim (Bool-cases (Dict.has job.job_id c.jobs)) [
  | inl known ↦ rw (known, register_job) refl
  | inr new_one ↦ rw (new_one, register_job) refl
]

cancel_known-IsTracked :
    (o : Option String) (job_id reason : String) (c : AgentCore)
    → IsTracked c
    → IsTracked (cancel_known o job_id reason c)
unfolding cancel_known
cancel_known-IsTracked (some id) job_id reason c t =
    gate-IsTracked c _ (revoke_permit-Shrinks id (some reason) c.permit_gate) t
cancel_known-IsTracked none job_id reason c t = same-IsTracked c _ refl refl refl refl t

on_cancel_job-IsTracked :
    (request_id job_id reason : String) (c : AgentCore)
    → IsTracked c
    → IsTracked (on_cancel_job request_id job_id reason c).1
unfolding on_cancel_job
on_cancel_job-IsTracked request_id job_id reason c t =
    elim (Option-cases (Dict.get job_id c.jobs)) [
      | inl e ↦ rw (e, on_cancel_job) t
      | inr (job, e) ↦
          rw (e, on_cancel_job)
            (cancel_known-IsTracked (Dict.get job_id c.active_permits_by_job) job_id reason c t)
    ]

pub handle-IsTracked :
    (env : Env) (message : InboundMessage) (c : AgentCore)
    → Dict.get env.permit_id c.cancellation.permit_to_job ≡ none
    → IsTracked c
    → IsTracked (handle env message c).1
unfolding handle on_submit_job on_report_queue_metrics on_heartbeat on_request_permit
handle-IsTracked env (submit_job request_id job) c unused t =
    same-IsTracked c _ refl refl refl refl t
handle-IsTracked env (cancel_job request_id job_id reason) c unused t =
    on_cancel_job-IsTracked request_id job_id reason c t
handle-IsTracked env (request_permit request_id job attempt) c unused t =
    request_registered-IsTracked env.raw env.permit_id env.clock request_id job attempt
      (register_job job c)
      (ap (λ x. Dict.get env.permit_id x.permit_to_job) (register_job-cancellation job c) ∙ unused)
      (register_job-IsTracked job c t)
handle-IsTracked env (report_queue_metrics request_id depth age backlog) c unused t =
    gate-IsTracked c _ (λ i p h. h) t
handle-IsTracked env (heartbeat timestamp) c unused t = t

-- A task whose stream changes.
stream-IsTracked :
    (id : String) (d e : Delegation) (c : AgentCore)
    → Dict.get id c.delegations ≡ some d
    → e.job ≡ d.job
    → IsTracked c
    → IsTracked (record c { delegations = Dict.set id e c.delegations })
stream-IsTracked id d e c at_id same_job t = record {
  active = t.active;
  delegated = λ i f h. elim (found id i e f c.delegations h) [
    | here same is ↦
        ap (λ j. Dict.get j.job_id c.active_permits_by_job) (ap (λ x. x.job) (sym is) ∙ same_job)
        ∙ t.delegated id d at_id
        ∙ ap some same
    | there miss at_i ↦ t.delegated i f at_i
  ];
  owned = t.owned;
}

forward-IsTracked :
    (id : String) (now : ℕ) (call : JobEventThrottle.Call) (d : Delegation) (o : Option Stream)
    (c : AgentCore)
    → Dict.get id c.delegations ≡ some d
    → IsTracked c
    → IsTracked (forward id now call d o c).1
unfolding forward forwarded
forward-IsTracked id now call d none c e t = t
forward-IsTracked id now call d (some s) c e t = stream-IsTracked id d _ c e refl t

on_stream-IsTracked :
    (id : String) (now : ℕ) (call : JobEventThrottle.Call) (c : AgentCore)
    → IsTracked c
    → IsTracked (on_stream id now call (Dict.get id c.delegations) c).1
unfolding on_stream
on_stream-IsTracked id now call c t = elim (Option-cases (Dict.get id c.delegations)) [
  | inl e ↦ rw (e, on_stream) t
  | inr (d, e) ↦ rw (e, on_stream) (forward-IsTracked id now call d d.stream c e t)
]

-- The task that settles is the one recorded for its job.
settled-IsTracked :
    (id : String) (d : Delegation) (c : AgentCore)
    → Dict.get id c.delegations ≡ some d
    → IsTracked c
    → IsTracked (forget d.job.job_id id (record c { delegations = Dict.delete id c.delegations }))
settled-IsTracked id d c e t =
    forget-IsTracked (record c { delegations = Dict.delete id c.delegations })
      (record {
        active = t.active;
        delegated = λ i f h. t.delegated i f (get-delete_found id i f c.delegations h).1;
        owned = t.owned;
      })
      d.job.job_id id (t.delegated id d e) (get-delete id id c.delegations ∙ rw (eq_refl id) refl)

on_settled-IsTracked :
    (id : String) (now : ℕ) (result : Option WorkerResult) (c : AgentCore)
    → IsTracked c
    → IsTracked (on_settled id now result (Dict.get id c.delegations) c).1
unfolding on_settled
on_settled-IsTracked id now result c t = elim (Option-cases (Dict.get id c.delegations)) [
  | inl e ↦ rw (e, on_settled) t
  | inr (d, e) ↦ rw (e, on_settled) (settled-IsTracked id d c e t)
]

either-IsTracked :
    (b : Bool) (c d : AgentCore) → IsTracked c → IsTracked d → IsTracked (if b then c else d)
either-IsTracked true c d t u = t
either-IsTracked false c d t u = u

shutdown-IsTracked : (c : AgentCore) → IsTracked c → IsTracked (shutdown c)
unfolding shutdown
shutdown-IsTracked c t = either-IsTracked (not c.started) c _ t (
    same-IsTracked (record c { permit_gate = _ }) _ refl refl refl refl
      (gate-IsTracked c _ (dispose-Shrinks c.permit_gate) t))

pub step-IsTracked :
    (e : Event) (c : AgentCore) → IsFresh e c → IsTracked c → IsTracked (step e c).1
unfolding step on_watchdog_tick on_deadline start
step-IsTracked (receives env message) c f t = handle-IsTracked env message c f t
step-IsTracked (streams id now call) c f t = on_stream-IsTracked id now call c t
step-IsTracked (settles id now result) c f t = on_settled-IsTracked id now result c t
step-IsTracked (watches collect now) c f t = same-IsTracked c _ refl refl refl refl t
step-IsTracked (expires id now) c f t = gate-IsTracked c _ (fire-Shrinks id now c.permit_gate) t
step-IsTracked starts c f t =
    either-IsTracked c.started c _ t (same-IsTracked c _ refl refl refl refl t)
step-IsTracked shuts_down c f t = shutdown-IsTracked c t

pub run-IsTracked :
    (es : List Event) (c : AgentCore) → AllFresh es c → IsTracked c → IsTracked (run es c)
unfolding run
run-IsTracked [] c f t = t
run-IsTracked (e ∷ es) c f t = run-IsTracked es (step e c).1 f.1 (step-IsTracked e c f.0 t)

pub new-IsTracked : (config : AgentCoreConfig) → IsTracked (new config)
unfolding new Dict.get PermitGate.new
new-IsTracked config = record {
  active = λ id p h. absurd (cc);
  delegated = λ id d h. absurd (cc);
  owned = λ k id h. absurd (cc);
}

-- After any events with fresh ids for permits, what the core tracks belongs together: an active permit and a
-- task that runs are those recorded for their job, so a job has at most one of each, and a permit that is
-- recorded for a job has a cancellation controller and is mapped back to that job.
pub run-new-IsTracked :
    (config : AgentCoreConfig) (es : List Event)
    → AllFresh es (new config)
    → IsTracked (run es (new config))
run-new-IsTracked config es f = run-IsTracked es (new config) f (new-IsTracked config)
