-- ===== src/Core/AgentCore/Answers.antt =====
-- What src/core/agentcore.ts answers, and a task that is cancelled while it runs.
use roboppi.Base.{
  ℕ, ◌≡◌, refl, sym, ap, ap₂, ◌∙◌, or_default, inl, inr, String, eq_refl, Option, none, some, List,
  [], ◌∷◌, Bool-cases, Option-cases,
}
use roboppi.Base.Dict
use roboppi.Base.Dict.{Dict, get-delete}
use roboppi.Base.Trim.{Text}
use roboppi.Worker.TaskPayload.{is_worker_task_job_payload}
use roboppi.Types.{Job}
use roboppi.Core.PermitGate
use roboppi.Core.PermitGate.{PermitGate, Permit, Clock, retire, complete_permit, revoke_permit}
use roboppi.Ipc.Messages.{
  WorkerResult, InboundMessage, submit_job, cancel_job, request_permit, report_queue_metrics,
  heartbeat, OutboundMessage, ack, permit_granted, permit_rejected, job_completed, job_cancelled,
  job_event, escalation, heartbeat_ack,
}
use roboppi.Core.AgentCore.{
  AgentCore, Delegation, forget, execute_worker_task, accept_permit, answer, register_job,
  is_worker_task, cancel_known, on_submit_job, on_cancel_job, on_request_permit, request_registered,
  on_report_queue_metrics, on_heartbeat, Env, handle,
}
use roboppi.Core.AgentCore.Background.{on_settled}

-- What a message answers: a request, by its id, or a heartbeat, with the time of the answer.
pub data Answer : Type 0 where
  to_request : String → Answer
  to_heartbeat : ℕ → Answer

abbrev pub request_of : Option String → Option Answer
request_of none = none
request_of (some id) = some (to_request id)

abbrev pub answers_to : OutboundMessage → Option Answer
answers_to (ack request_id _) = some (to_request request_id)
answers_to (permit_granted request_id _) = some (to_request request_id)
answers_to (permit_rejected request_id _) = some (to_request request_id)
answers_to (job_cancelled _ _ request_id) = request_of request_id
answers_to (OutboundMessage.error _ _ request_id) = request_of request_id
answers_to (job_completed _ _ _ _) = none
answers_to (job_event _ _ _ _) = none
answers_to (escalation _) = none
answers_to (heartbeat_ack now) = some (to_heartbeat now)

abbrev pub listed : Option Answer → List Answer → List Answer
listed none answers = answers
listed (some answer) answers = answer ∷ answers

-- What messages answer, in order.
pub answered : List OutboundMessage → List Answer
answered [] = []
answered (m ∷ ms) = listed (answers_to m) (answered ms)

-- The answers that a message at a time waits for.
pub asks : ℕ → InboundMessage → List Answer
asks now (submit_job request_id _) = to_request request_id ∷ []
asks now (cancel_job request_id _ _) = to_request request_id ∷ []
asks now (request_permit request_id _ _) = to_request request_id ∷ []
asks now (report_queue_metrics _ _ _ _) = []
asks now (heartbeat _) = to_heartbeat now ∷ []

answered-execute_worker_task :
    (raw : Option Text) (job : Job) (id : String) (c : AgentCore)
    → answered (execute_worker_task raw job id c).0 ≡ []
unfolding execute_worker_task answered
answered-execute_worker_task raw job id c =
    elim (Bool-cases (is_worker_task_job_payload job.payload)) [
      | inl valid ↦ rw (valid, execute_worker_task) refl
      | inr invalid ↦ rw (invalid, execute_worker_task) refl
    ]

answered-accept_permit :
    (raw : Option Text) (request_id : String) (job : Job) (p : Permit) (c : AgentCore)
    → answered (accept_permit raw request_id job p c).0 ≡ to_request request_id ∷ []
unfolding accept_permit answered
answered-accept_permit raw request_id job p c = elim (Bool-cases (is_worker_task job.type)) [
  | inl worker ↦
      rw (worker, accept_permit)
        (ap (λ l. to_request request_id ∷ l) (answered-execute_worker_task raw job p.permit_id _))
  | inr plain ↦ rw (plain, accept_permit) refl
]

answered-answer :
    (raw : Option Text) (request_id : String) (job : Job) (result : PermitGate.Result)
    (c : AgentCore)
    → answered (answer raw request_id job result c).0 ≡ to_request request_id ∷ []
unfolding answer answered
answered-answer raw request_id job (PermitGate.granted p) c =
    answered-accept_permit raw request_id job p c
answered-answer raw request_id job (PermitGate.rejected n) c = refl

answered-request_registered :
    (raw : Option Text) (id : String) (clock : Clock) (request_id : String) (job : Job)
    (attempt : ℕ) (c : AgentCore)
    → answered (request_registered raw id clock request_id job attempt c).0
      ≡ to_request request_id ∷ []
unfolding request_registered answered
answered-request_registered raw id clock request_id job attempt c =
    elim (Option-cases (Dict.get job.job_id c.active_permits_by_job)) [
      | inr (existing, e) ↦ rw (e, request_registered) refl
      | inl free ↦
          rw (free, request_registered)
            (answered-answer raw request_id job
              (PermitGate.request_permit job attempt id clock c.permit_gate).0 _)
    ]

-- Every message that waits for an answer gets exactly one, under its own id, in every state of the core:
-- a job that is submitted, cancelled (known or not) or asks for a permit (granted or not, even if its task
-- fails at once). A heartbeat gets one acknowledgement, with the core's
-- time, and a report of metrics no answer.
pub answered-handle :
    (env : Env) (message : InboundMessage) (c : AgentCore)
    → answered (handle env message c).0 ≡ asks env.now message
unfolding handle answered asks on_submit_job on_cancel_job on_request_permit on_report_queue_metrics
    on_heartbeat
answered-handle env (submit_job request_id job) c = refl
answered-handle env (cancel_job request_id job_id reason) c =
    elim (Option-cases (Dict.get job_id c.jobs)) [
      | inl e ↦ rw (e, on_cancel_job) refl
      | inr (job, e) ↦ rw (e, on_cancel_job) refl
    ]
answered-handle env (request_permit request_id job attempt) c =
    answered-request_registered env.raw env.permit_id env.clock request_id job attempt
      (register_job job c)
answered-handle env (report_queue_metrics request_id depth age backlog) c = refl
answered-handle env (heartbeat timestamp) c = refl

with_signals : PermitGate → PermitGate → PermitGate
with_signals g h = record g { signals = h.signals }

complete_none :
    (id : String) (g : PermitGate) → Dict.get id g.active_permits ≡ none → complete_permit id g ≡ g
unfolding complete_permit
complete_none id g e = rw (e, complete_permit) refl

-- A permit that was revoked has nothing left to complete.
complete_permit-revoke_permit :
    (id : String) (reason : Option String) (g : PermitGate)
    → complete_permit id (revoke_permit id reason g)
      ≡ record (complete_permit id g) { signals = (revoke_permit id reason g).signals }
unfolding complete_permit revoke_permit retire with_signals
complete_permit-revoke_permit id reason g = elim (Option-cases (Dict.get id g.active_permits)) [
  | inl e ↦
      let r : revoke_permit id reason g ≡ g = rw (e, revoke_permit) refl in
      let c = complete_none id g e in
      ap (complete_permit id) r ∙ c ∙ ap₂ with_signals (sym c) (sym r)
  | inr (p, e) ↦
      let revoked : PermitGate = retire id p (record g {
        signals = PermitGate.abort id (or_default reason "Permit revoked") g.signals;
      }) in
      let r : revoke_permit id reason g ≡ revoked = rw (e, revoke_permit) refl in
      let c : complete_permit id g ≡ retire id p g = rw (e, complete_permit) refl in
      ap (complete_permit id) r
      ∙ complete_none id revoked (get-delete id id g.active_permits ∙ rw (eq_refl id) refl)
      ∙ ap₂ with_signals (sym c) (sym r)
]

-- If the task of a job is cancelled while it runs, and then settles, the core sends the same messages and
-- ends in the same state as if it had not been cancelled, but for the abort signals: the slot, the cost
-- and the timer of its permit are given back once.
pub on_settled-on_cancel_job :
    (request_id job_id reason id : String) (now : ℕ) (result : Option WorkerResult) (d : Delegation)
    (job : Job) (c : AgentCore)
    → Dict.get job_id c.jobs ≡ some job
    → Dict.get job_id c.active_permits_by_job ≡ some id
    → on_settled id now result (some d) (on_cancel_job request_id job_id reason c).1 ≡ (
      (on_settled id now result (some d) c).0,
      record ((on_settled id now result (some d) c).1) {
        permit_gate = record ((on_settled id now result (some d) c).1.permit_gate) {
          signals = (revoke_permit id (some reason) c.permit_gate).signals;
        };
      },
    )
unfolding on_settled on_cancel_job cancel_known forget
on_settled-on_cancel_job request_id job_id reason id now result d job c known active =
    let e : (on_cancel_job request_id job_id reason c).1
        ≡ record c { permit_gate = revoke_permit id (some reason) c.permit_gate } =
      rw (known, on_cancel_job) (rw (active, cancel_known) refl) in
    ap (on_settled id now result (some d)) e
    ∙ ap
        (λ g. (
          (on_settled id now result (some d) c).0,
          record ((on_settled id now result (some d) c).1) { permit_gate = g },
        ))
        (complete_permit-revoke_permit id (some reason) c.permit_gate)
