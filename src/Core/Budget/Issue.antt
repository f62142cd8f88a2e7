-- ===== src/Core/Budget/Issue.antt =====
-- When a permit may be issued, and that taking its tokens then succeeds.
use roboppi.Base.{
  ℕ, ◌+◌, ◌≤◌, ◌<◌, ◌≡◌, refl, true, false, Option, none, some, arith, length, leb, if◌then◌else◌,
}
use roboppi.Types.{Job, PermitTokens, budget_exhausted, concurrency_limit, rate_limit}
use roboppi.Core.RpsRing.{count_in_window}
use roboppi.Core.RpsRing.Refines.{entries, drop_expired, entries-count_in_window}
use roboppi.Core.Budget.{ExecutionBudget, window_start, over_budget, cost_of, can_issue, consume}
use roboppi.Core.Budget.Invariant.{IsWithinLimits, counted, count_in_window-Counted}

-- The refusal comes from the first of four tests that fails: the attempts of the job, the active
-- slots, the tokens granted in the last second, and the cost that its hint would bring the total to.
can_issue_lem :
    (job : Job) (attempt now : ℕ) (b : ExecutionBudget)
    → IsWithinLimits b
    → (can_issue job attempt now b).0 ≡ (
        if leb job.limits.max_attempts attempt
        then some budget_exhausted
        else if leb b.max_concurrency b.active_slots
        then some concurrency_limit
        else if leb b.max_rps (length (drop_expired (window_start now) (entries b.rps_ring)))
        then some rate_limit
        else if over_budget job.limits.cost_hint b.max_cost_budget b.cumulative_cost
        then some budget_exhausted
        else none)
unfolding can_issue
can_issue_lem job attempt now b v =
    ground (arith, entries-count_in_window b.rps_ring (window_start now) v.ring)

-- A permit that asks for no more than the hint.
abbrev pub AtMost : Option ℕ → Option ℕ → Type 0
AtMost none hint = Unit
AtMost (some cost) none = ⊥
AtMost (some cost) (some hint) = cost ≤ hint

over_budget_mono :
    (cost hint cap : Option ℕ) (spent : ℕ)
    → AtMost cost hint
    → over_budget hint cap spent ≡ false
    → over_budget cost cap spent ≡ false
over_budget_mono none hint cap spent m h = refl
over_budget_mono (some c) none cap spent m h = absurd m
over_budget_mono (some c) (some k) none spent m h = refl
over_budget_mono (some c) (some k) (some l) spent m h = ground arith

module _ (job : Job) (attempt now : ℕ) (b : ExecutionBudget)
    (ok : (can_issue job attempt now b).0 ≡ none) where
  allowed_facts :
      (b.active_slots < b.max_concurrency)
      × ((count_in_window (window_start now) b.rps_ring).0 < b.max_rps)
      × (over_budget job.limits.cost_hint b.max_cost_budget b.cumulative_cost ≡ false)
      × ((can_issue job attempt now b).1
          ≡ record b { rps_ring = (count_in_window (window_start now) b.rps_ring).1 })
  unfolding can_issue
  allowed_facts = ground arith

  -- The second check of the rate and of the cost, at any later or earlier clock, cannot fail right
  -- after the first one allowed the permit, and the slots stay within the limit.
  pub consume-can_issue :
      (tokens : PermitTokens) (later : ℕ)
      → IsWithinLimits b
      → AtMost tokens.cost_budget job.limits.cost_hint
      → let (done, c) = consume tokens later (can_issue job attempt now b).1 in
        (done ≡ true)
        × (c.config ≡ b.config)
        × (c.active_slots ≡ b.active_slots + 1)
        × (c.active_slots ≤ b.max_concurrency)
        × (c.cumulative_cost ≡ b.cumulative_cost + cost_of tokens.cost_budget)
  unfolding consume
  consume-can_issue tokens later v m = rw allowed_facts.3 (
      ground (
        arith,
        allowed_facts.0,
        allowed_facts.1,
        allowed_facts.2,
        count_in_window-Counted b.rps_ring (window_start now) v.ring,
        count_in_window-Counted (count_in_window (window_start now) b.rps_ring).1
            (window_start later) (counted b now v).ring,
        over_budget_mono tokens.cost_budget job.limits.cost_hint b.max_cost_budget b.cumulative_cost
            m,
      ))
