-- ===== src/Core/Budget/Examples.antt =====
-- A budget of two requests a second, and the theorems at it.
use roboppi.Base.{◌≤◌, ◌≡◌, refl, none, some, List, [], ◌∷◌, arith}
use roboppi.Base.Int.{negsuc}
use roboppi.Types.{Job, PermitTokens, interactive, tool}
use roboppi.Core.RpsRing
use roboppi.Core.Budget
use roboppi.Core.Budget.{
  ExecutionBudgetConfig, Call, acquires_slot, acquires_rate, acquires_cost, issues, consumes,
  releases, new, can_issue, consume, run,
}
use roboppi.Core.Budget.Invariant.{IsWithinLimits, run-new-IsWithinLimits}
use roboppi.Core.Budget.Window.{recent, issued, rate_limited}

abbrev tight : ExecutionBudgetConfig
tight = record { max_concurrency = 3; max_rps = 2; max_cost_budget = some 10 }

abbrev job : Job
job = record {
  job_id = "j";
  type = tool;
  priority = record { value = 1; class = interactive };
  key = none;
  payload = none;
  limits = record {
    timeout_ms = 500;
    max_attempts = 2;
    cost_hint = some 6;
    retry_budget_ms = none;
  };
}

abbrev tokens : PermitTokens
tokens = record { concurrency = 1; rps = 1; cost_budget = some 6 }

-- The second call is refused for its cost and the fourth for its rate.
abbrev calls : List Call
calls =
    consumes tokens 5000
    ∷ consumes tokens 5001
    ∷ acquires_rate 5002
    ∷ acquires_rate 5999
    ∷ acquires_rate 6000
    ∷ acquires_cost (negsuc 0)
    ∷ releases tokens
    ∷ issues job 0 6001
    ∷ []

issued-calls : issued calls (new tight) ≡ 5000 ∷ 5002 ∷ 6000 ∷ []
unfolding issued Budget.step consume Budget.try_acquire_rate Budget.try_acquire_cost Budget.release
    can_issue new RpsRing.new RpsRing.count_in_window RpsRing.push
issued-calls = refl

run-new-IsWithinLimits_example : IsWithinLimits (run calls (new tight))
run-new-IsWithinLimits_example = run-new-IsWithinLimits tight calls

rate_limited_example : recent 6400 (issued calls (new tight)) ≤ 2
rate_limited_example = rate_limited tight calls 6400 (omega arith) (omega arith)
