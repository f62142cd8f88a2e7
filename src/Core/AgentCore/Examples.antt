-- ===== src/Core/AgentCore/Examples.antt =====
-- A core of src/core/agentcore.ts with a worker task and a plain job.
use roboppi.Base.{ℕ, ◌≡◌, refl, String, Bool, true, false, Option, none, some, List, [], ◌∷◌}
use roboppi.Base.Dict
use roboppi.Base.Json.{Json, number, string, array, object, no_items, no_fields, field}
use roboppi.Types.{Job, JobType, llm, worker_task, batch}
use roboppi.Core.PermitGate.{Permit, Clock, revoke_permit}
use roboppi.Ipc.Messages.{succeeded, WorkerResult, cancel_job, request_permit, permit_rejected}
use roboppi.Core.AgentCore.{
  AgentCoreConfig, AgentCore, Delegation, Env, new, handle, duplicate, on_cancel_job,
}
use roboppi.Core.AgentCore.Background.{
  Event, receives, settles, expires, shuts_down, starts, run, on_settled,
}
use roboppi.Core.AgentCore.Owners.{IsTracked}
use roboppi.Core.AgentCore.Tracked.{run-new-IsTracked}
use roboppi.Core.AgentCore.Stuck.{plain_job_blocked}
use roboppi.Core.AgentCore.Answers.{answered, asks, answered-handle, on_settled-on_cancel_job}

abbrev defaults : AgentCoreConfig
defaults = record {
  budget = none;
  backpressure = none;
  circuit_breaker = none;
  watchdog_interval_ms = none;
  watchdog_thresholds = [];
  escalation_config = none;
}

abbrev job_of : String → JobType → Option Json → Job
job_of id type payload = record {
  job_id = id;
  type = type;
  priority = record { value = 0; class = batch };
  key = none;
  payload = payload;
  limits = record { timeout_ms = 1000; max_attempts = 3; cost_hint = none; retry_budget_ms = none };
}

abbrev payload : Json
payload = object (
    field "workerTaskId" (string "t") (
      field "workspaceRef" (string "w") (
        field "instructions" (string "i") (
          field "workerKind" (string "CUSTOM") (
            field "outputMode" (string "STREAM") (
              field "capabilities" (array no_items)
                (field "budget" (object (field "deadlineAt" (number 9) no_fields)) no_fields)))))))

abbrev worker : Job
worker = job_of "w" worker_task (some payload)

abbrev plain : Job
plain = job_of "p" llm none

abbrev env : String → Env
env id = record {
  now = 5;
  clock = record { checked = 5; issued = 5; consumed = 5; armed = 5 };
  permit_id = id;
  raw = none;
}

abbrev asks_twice : List Event
asks_twice =
    receives (env "1") (request_permit "r" worker 0)
    ∷ receives (env "2") (cancel_job "c" "w" "stop")
    ∷ receives (env "2") (request_permit "s" worker 0)
    ∷ []

abbrev result : WorkerResult
result = record { status = succeeded; error_class = none }

-- The functions that a run of the core goes through.
all_open : Unit {0}
unfolding roboppi.Base.Json.get_field roboppi.Core.PermitGate.request_permit
    roboppi.Core.PermitGate.complete_permit roboppi.Core.PermitGate.revoke_permit
    roboppi.Core.PermitGate.retire roboppi.Core.PermitGate.abort roboppi.Core.PermitGate.activate
    roboppi.Core.PermitGate.take_tokens roboppi.Core.PermitGate.make_permit
    roboppi.Core.PermitGate.new roboppi.Core.PermitGate.check_breaker
    roboppi.Core.PermitGate.ask_provider roboppi.Core.PermitGate.resolve_provider
    roboppi.Core.PermitGate.check_budget roboppi.Core.Backpressure.check
    roboppi.Core.Backpressure.reaches roboppi.Core.Backpressure.compute_load
    roboppi.Core.Backpressure.larger roboppi.Core.Backpressure.divide roboppi.Core.Backpressure.new
    roboppi.Core.BreakerRegistry.get roboppi.Core.BreakerRegistry.is_provider_open
    roboppi.Core.BreakerRegistry.get_snapshot roboppi.Base.Dict.get roboppi.Base.Dict.set
    roboppi.Base.Dict.has roboppi.Base.Dict.delete roboppi.Core.Budget.new
    roboppi.Core.Budget.can_issue roboppi.Core.Budget.consume roboppi.Core.Budget.release
    roboppi.Core.Budget.try_acquire_slot roboppi.Core.Budget.release_slot
    roboppi.Core.Budget.try_acquire_rate roboppi.Core.Budget.try_acquire_cost
    roboppi.Core.Budget.release_cost roboppi.Core.Budget.step roboppi.Core.Budget.run
    roboppi.Core.RpsRing.new roboppi.Core.RpsRing.evicted roboppi.Core.RpsRing.count_in_window
    roboppi.Core.RpsRing.push roboppi.Core.AgentCore.new roboppi.Core.AgentCore.on_submit_job
    roboppi.Core.AgentCore.cancel_known roboppi.Core.AgentCore.on_cancel_job
    roboppi.Core.AgentCore.forget roboppi.Core.AgentCore.forward_stdio
    roboppi.Core.AgentCore.execute_worker_task roboppi.Core.AgentCore.is_worker_task
    roboppi.Core.AgentCore.accept_permit roboppi.Core.AgentCore.duplicate
    roboppi.Core.AgentCore.register_job roboppi.Core.AgentCore.request_registered
    roboppi.Core.AgentCore.on_request_permit roboppi.Core.AgentCore.on_report_queue_metrics
    roboppi.Core.AgentCore.on_heartbeat roboppi.Core.AgentCore.handle
    roboppi.Core.AgentCore.Background.numbered roboppi.Core.AgentCore.Background.forwarded
    roboppi.Core.AgentCore.Background.forward roboppi.Core.AgentCore.Background.on_stream
    roboppi.Core.AgentCore.Background.on_settled roboppi.Core.AgentCore.Background.evaluate_each
    roboppi.Core.AgentCore.Background.on_watchdog_tick roboppi.Core.AgentCore.Background.on_deadline
    roboppi.Core.AgentCore.Background.start roboppi.Core.AgentCore.Background.shutdown
    roboppi.Core.AgentCore.Background.step roboppi.Core.AgentCore.Background.run
    roboppi.Core.Cancellation.new roboppi.Core.Cancellation.create_controller
    roboppi.Core.Cancellation.cancel roboppi.Core.Cancellation.cancel_mapped
    roboppi.Core.Cancellation.cancel_by_job_id roboppi.Core.Cancellation.is_aborted
    roboppi.Core.Cancellation.on_abort roboppi.Core.Cancellation.remove_controller
    roboppi.Worker.TaskPayload.is_one_of roboppi.Worker.TaskPayload.is_worker_task_job_payload
    roboppi.Worker.TaskPayload.text_field roboppi.Core.EscalationManager.new
    roboppi.Core.EscalationManager.on_escalation roboppi.Core.Watchdog.new
    roboppi.Core.Watchdog.set_callbacks roboppi.Core.Watchdog.assign
    roboppi.Core.JobEventThrottle.new roboppi.Core.JobEventThrottle.dispose
all_open = tt

second_is_duplicate :
    (handle
      (env "2")
      (request_permit "s" worker 0)
      (run (receives (env "1") (request_permit "r" worker 0) ∷ []) (new defaults))).0
    ≡ permit_rejected "s" (duplicate worker "1") ∷ []
unfolding all_open
second_is_duplicate = refl

run-new-IsTracked_example : IsTracked (run asks_twice (new defaults))
run-new-IsTracked_example =
    run-new-IsTracked defaults asks_twice (unfold all_open in (refl, (refl, (refl, tt))))

answered-handle_example :
    answered (handle (env "1") (request_permit "r" worker 0) (new defaults)).0
    ≡ asks (env "1").now (request_permit "r" worker 0)
answered-handle_example = answered-handle (env "1") (request_permit "r" worker 0) (new defaults)

abbrev granted : Permit
granted = record {
  permit_id = "1";
  job_id = "p";
  deadline_at = 1005;
  attempt_index = 0;
  tokens_granted = record { concurrency = 1; rps = 1; cost_budget = none };
  circuit_state_snapshot = [];
}

-- The deadline passes and the job is cancelled; a retry is a duplicate still.
plain_job_blocked_example :
    (handle (env "2") (request_permit "s" plain 1) (
      run
        (expires "1" 9000 ∷ receives (env "3") (cancel_job "c" "p" "stop") ∷ [])
        (handle (env "1") (request_permit "r" plain 0) (run [] (new defaults))).1)).0
    ≡ permit_rejected "s" (duplicate plain "1") ∷ []
plain_job_blocked_example =
    plain_job_blocked defaults []
      (expires "1" 9000 ∷ receives (env "3") (cancel_job "c" "p" "stop") ∷ []) (env "1") (env "2")
      "r" "s" plain plain 0 1 granted tt (unfold all_open in refl) (unfold all_open in refl)
      (unfold all_open in refl) (unfold all_open in (tt, (refl, tt))) refl

abbrev running : AgentCore
running = run (receives (env "1") (request_permit "r" worker 0) ∷ []) (new defaults)

abbrev task : Delegation
task = record { job = worker; stream = none }

on_settled-on_cancel_job_example :
    on_settled "1" 9 (some result) (some task) (on_cancel_job "c" "w" "stop" running).1 ≡ (
      (on_settled "1" 9 (some result) (some task) running).0,
      record ((on_settled "1" 9 (some result) (some task) running).1) {
        permit_gate = record ((on_settled "1" 9 (some result) (some task) running).1.permit_gate) {
          signals = (revoke_permit "1" (some "stop") running.permit_gate).signals;
        };
      },
    )
on_settled-on_cancel_job_example =
    on_settled-on_cancel_job "c" "w" "stop" "1" 9 (some result) task worker running
      (unfold all_open in refl) (unfold all_open in refl)
