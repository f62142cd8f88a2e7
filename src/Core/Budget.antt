-- ===== src/Core/Budget.antt =====
-- src/core/execution-budget.ts, the class `ExecutionBudget`. The clock is read once in a method, and
-- is an argument; costs are natural numbers, but for the checked argument of `tryAcquireCost`.
pub mod Invariant
pub mod Window
pub mod Issue
mod Examples
use roboppi.Base.{
  ℕ, ◌+◌, ◌-◌, Bool, true, false, ◌||◌, Option, none, some, List, [], ◌∷◌, ltb, leb, if◌then◌else◌,
}
use roboppi.Base.Int.{ℤ, pos, negsuc, sub_ℕ}
use roboppi.Types.{
  Job, PermitTokens, PermitRejectionReason, budget_exhausted, concurrency_limit, rate_limit,
}
use roboppi.Core.RpsRing
use roboppi.Core.RpsRing.{RpsRing, count_in_window, push}

pub record ExecutionBudgetConfig : Type 0 where
  pub max_concurrency : ℕ
  pub max_rps : ℕ
  pub max_cost_budget : Option ℕ

pub record ExecutionBudget : Type 0 where
  pub config : ExecutionBudgetConfig
  pub open config use *
  pub active_slots : ℕ
  pub cumulative_cost : ℕ
  pub rps_ring : RpsRing

unfoldable pub new : ExecutionBudgetConfig → ExecutionBudget
new c = record {
  config = c;
  active_slots = 0;
  cumulative_cost = 0;
  rps_ring = RpsRing.new c.max_rps;
}

abbrev pub window_start : ℕ → ℤ
window_start now = sub_ℕ now 1000

abbrev pub check_attempts : ℕ → ℕ → Bool
check_attempts attempt_index max_attempts = ltb attempt_index max_attempts

unfoldable pub try_acquire_slot : ExecutionBudget → Bool × ExecutionBudget
try_acquire_slot b =
    if leb b.max_concurrency b.active_slots
    then (false, b)
    else (true, record b { active_slots = b.active_slots + 1 })

unfoldable pub release_slot : ExecutionBudget → ExecutionBudget
release_slot b = if ltb 0 b.active_slots then record b { active_slots = b.active_slots - 1 } else b

unfoldable pub try_acquire_rate : ℕ → ExecutionBudget → Bool × ExecutionBudget
try_acquire_rate now b =
    let (count, ring) = count_in_window (window_start now) b.rps_ring in
    if leb b.max_rps count
    then (false, record b { rps_ring = ring })
    else (true, record b { rps_ring = push now ring })

-- A cost that would pass the cap; with no cost or no cap it does not.
abbrev pub over_budget : Option ℕ → Option ℕ → ℕ → Bool
over_budget none cap spent = false
over_budget (some cost) none spent = false
over_budget (some cost) (some cap) spent = ltb cap (spent + cost)

acquire_cost : Option ℕ → ℕ → ExecutionBudget → Bool × ExecutionBudget
acquire_cost none cost b = (true, b)
acquire_cost (some cap) cost b =
    if ltb cap (b.cumulative_cost + cost)
    then (false, b)
    else (true, record b { cumulative_cost = b.cumulative_cost + cost })

-- `none` is the exception for a negative cost.
unfoldable pub try_acquire_cost : ℤ → ExecutionBudget → Option (Bool × ExecutionBudget)
unfolding acquire_cost
try_acquire_cost (negsuc _) b = none
try_acquire_cost (pos cost) b = some (acquire_cost b.max_cost_budget cost b)

-- `Math.max(0, spent - cost)` is the truncated difference.
unfoldable pub release_cost : ℕ → ExecutionBudget → ExecutionBudget
release_cost cost b = record b { cumulative_cost = b.cumulative_cost - cost }

-- The reason of the refusal, or `none`. The count of the requests evicts the old ones.
unfoldable pub can_issue :
    Job → ℕ → ℕ → ExecutionBudget → Option PermitRejectionReason × ExecutionBudget
can_issue job attempt_index now b =
    let (count, ring) = count_in_window (window_start now) b.rps_ring in
    let counted = record b { rps_ring = ring } in
    if leb job.limits.max_attempts attempt_index
    then (some budget_exhausted, b)
    else if leb b.max_concurrency b.active_slots
    then (some concurrency_limit, b)
    else if leb b.max_rps count
    then (some rate_limit, counted)
    else if over_budget job.limits.cost_hint b.max_cost_budget b.cumulative_cost
    then (some budget_exhausted, counted)
    else (none, counted)

abbrev pub cost_of : Option ℕ → ℕ
cost_of none = 0
cost_of (some cost) = cost

unfoldable pub consume : PermitTokens → ℕ → ExecutionBudget → Bool × ExecutionBudget
consume tokens now b =
    let (count, ring) = count_in_window (window_start now) b.rps_ring in
    let counted = record b { rps_ring = ring } in
    if leb b.max_rps count
    then (false, counted)
    else if over_budget tokens.cost_budget b.max_cost_budget b.cumulative_cost
    then (false, counted)
    else (
      true,
      record b {
        active_slots = b.active_slots + 1;
        rps_ring = push now ring;
        cumulative_cost = b.cumulative_cost + cost_of tokens.cost_budget;
      },
    )

unfoldable pub release : PermitTokens → ExecutionBudget → ExecutionBudget
release tokens b = record b {
  active_slots = if ltb 0 b.active_slots then b.active_slots - 1 else b.active_slots;
  cumulative_cost = b.cumulative_cost - cost_of tokens.cost_budget;
}

-- The calls of a budget, with the clock where they read it.
pub data Call : Type 0 where
  acquires_slot releases_slot : Call
  acquires_rate : ℕ → Call
  acquires_cost : ℤ → Call
  releases_cost : ℕ → Call
  issues : Job → ℕ → ℕ → Call
  consumes : PermitTokens → ℕ → Call
  releases : PermitTokens → Call

abbrev pub after_cost : ExecutionBudget → Option (Bool × ExecutionBudget) → ExecutionBudget
after_cost b none = b
after_cost b (some (_, c)) = c

unfoldable pub step : Call → ExecutionBudget → ExecutionBudget
step acquires_slot b = (try_acquire_slot b).1
step releases_slot b = release_slot b
step (acquires_rate now) b = (try_acquire_rate now b).1
step (acquires_cost cost) b = after_cost b (try_acquire_cost cost b)
step (releases_cost cost) b = release_cost cost b
step (issues job attempt_index now) b = (can_issue job attempt_index now b).1
step (consumes tokens now) b = (consume tokens now b).1
step (releases tokens) b = release tokens b

unfoldable pub run : List Call → ExecutionBudget → ExecutionBudget
run [] b = b
run (c ∷ cs) b = run cs (step c b)
