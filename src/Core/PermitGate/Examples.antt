-- ===== src/Core/PermitGate/Examples.antt =====
-- A gate of two slots, and the theorems at it.
use roboppi.Base.{◌≡◌, refl, false, inl, none, some, List, [], ◌∷◌}
use roboppi.Base.Dict
use roboppi.Base.Json.{object, field, string, no_fields}
use roboppi.Types.{Job, worker_task, interactive, budget_exhausted, circuit_open}
use roboppi.Core.CircuitBreaker.{CircuitBreaker, half_open, default_config}
use roboppi.Core.CircuitBreaker
use roboppi.Core.BreakerRegistry.{Registry}
use roboppi.Core.BreakerRegistry
use roboppi.Core.Backpressure.{BackpressureController, default_normalization, check}
use roboppi.Core.Backpressure
use roboppi.Core.Budget.{ExecutionBudgetConfig}
use roboppi.Core.Budget
use roboppi.Core.RpsRing
use roboppi.Core.PermitGate
use roboppi.Core.PermitGate.{
  PermitGate, Permit, Clock, Event, requests, revokes, completes, fires, new, make_permit,
  resolve_provider, request_permit, revoke_permit, complete_permit, fire, step, run,
  get_active_permit_count,
}
use roboppi.Core.PermitGate.Accounts.{IsBalanced}
use roboppi.Core.PermitGate.Request.{reason_of, IsGranted}
use roboppi.Core.PermitGate.Answer.{request_permit_lem, request_permit-IsGranted}
use roboppi.Core.PermitGate.Release.{completed, finish, finish-request_permit}
use roboppi.Core.PermitGate.Run.{run-new-IsBalanced}
use roboppi.Core.PermitGate.Probes.{refused_probe_blocks}

abbrev limits : ExecutionBudgetConfig
limits = record { max_concurrency = 2; max_rps = 5; max_cost_budget = some 10 }

abbrev idle : BackpressureController
idle = record {
  thresholds = record {
    reject_threshold = record { num = 1; den = 1 };
    defer_threshold = record { num = 3; den = 4 };
    degrade_threshold = record { num = 1; den = 2 };
  };
  normalization = default_normalization;
  metrics = record { active_permits = 0; queue_depth = 0; avg_latency_ms = 0 };
}

abbrev probing : CircuitBreaker
probing = record (CircuitBreaker.new default_config) { state = half_open }

abbrev codex : Registry
codex = record { breakers = ("CODEX", probing) ∷ []; default = none }

abbrev job : Job
job = record {
  job_id = "j";
  type = worker_task;
  priority = record { value = 1; class = interactive };
  key = none;
  payload = some (object (field "workerKind" (string "CODEX") no_fields));
  limits = record {
    timeout_ms = 500;
    max_attempts = 2;
    cost_hint = some 7;
    retry_budget_ms = none;
  };
}

abbrev clock : Clock
clock = record { checked = 5000; issued = 5001; consumed = 5002; armed = 5003 }

abbrev gate : PermitGate
gate = new (Budget.new limits) codex idle

abbrev running : PermitGate
running = (request_permit job 0 "p" clock gate).1

-- The functions that a run of the gate goes through.
all_open : Unit {0}
unfolding roboppi.Base.Json.get_field request_permit run step fire complete_permit revoke_permit
    check Backpressure.reaches Backpressure.compute_load Backpressure.larger Backpressure.divide new
    PermitGate.check_breaker PermitGate.ask_provider resolve_provider BreakerRegistry.get
    BreakerRegistry.is_provider_open Dict.get CircuitBreaker.should_reject CircuitBreaker.new
    PermitGate.check_budget Budget.can_issue Budget.new RpsRing.count_in_window Dict.set Dict.delete
    BreakerRegistry.get_snapshot Budget.consume Budget.release PermitGate.activate make_permit
    PermitGate.open_detail PermitGate.take_tokens PermitGate.retire PermitGate.abort RpsRing.new
    RpsRing.push
all_open = tt

grants : reason_of (request_permit job 0 "p" clock gate).0 ≡ none
unfolding all_open
grants = refl

gate-IsBalanced : IsBalanced gate
unfolding run
gate-IsBalanced = run-new-IsBalanced limits codex idle [] tt

running-IsBalanced : IsBalanced running
unfolding run step
running-IsBalanced =
    run-new-IsBalanced limits codex idle (requests job 0 "p" clock ∷ [])
      (unfold all_open in (refl, tt))

abbrev history : List Event
history = requests job 0 "p" clock ∷ fires "p" 5503 ∷ completes "p" ∷ []

run-new-IsBalanced_example : IsBalanced (run history gate)
run-new-IsBalanced_example =
    run-new-IsBalanced limits codex idle history (unfold all_open in (refl, (tt, (tt, tt))))

-- The job has used up its attempts.
request_permit_lem_example :
    reason_of (request_permit job 2 "p" clock gate).0 ≡ some budget_exhausted
unfolding all_open
request_permit_lem_example = request_permit_lem job 2 "p" clock gate (gate-IsBalanced).limits

request_permit-IsGranted_example :
    IsGranted job 0 "p" clock gate false (request_permit job 0 "p" clock gate)
unfolding all_open
request_permit-IsGranted_example =
    request_permit-IsGranted job 0 "p" clock gate (gate-IsBalanced).limits grants

finish-request_permit_example :
    let h = finish completed "p" running in
    (h.budget.active_slots ≡ gate.budget.active_slots)
    × (h.budget.cumulative_cost ≡ gate.budget.cumulative_cost)
    × (get_active_permit_count h ≡ get_active_permit_count gate)
finish-request_permit_example =
    finish-request_permit completed job 0 "p" clock gate gate-IsBalanced (unfold all_open in refl)
      grants

-- The second attempt index is refused, and with it the probe is lost for the next job.
refused_probe_blocks_example :
    (reason_of (request_permit job 2 "p" clock gate).0 ≡ some budget_exhausted)
    × (reason_of
          (request_permit job 0 "q" clock
            (run (completes "p" ∷ []) (request_permit job 2 "p" clock gate).1)).0
        ≡ some circuit_open)
refused_probe_blocks_example =
    refused_probe_blocks "CODEX" job 2 "p" clock gate probing (unfold all_open in refl)
      (unfold all_open in refl) (unfold all_open in refl) (unfold all_open in refl)
      (inl (unfold all_open in refl)) budget_exhausted (gate-IsBalanced).limits
      (unfold all_open in refl) (completes "p" ∷ []) job 0 "q" clock (tt, tt)
      (unfold all_open in refl) (inl (unfold all_open in refl))
