-- ===== src/Core/Budget/Invariant.antt =====
-- What holds of a budget between two calls.
use roboppi.Base.{ℕ, ◌+◌, ◌≤◌, ◌≡◌, refl, Option, none, some, false, ◌-◌, List, [], ◌∷◌, arith}
use roboppi.Base.Int.{ℤ, pos, negsuc}
use roboppi.Types.{Job, PermitTokens}
use roboppi.Core.RpsRing
use roboppi.Core.RpsRing.{RpsRing, count_in_window, push}
use roboppi.Core.RpsRing.Refines.{IsRing, count_in_window-IsRing, push-IsRing, new-IsRing}
use roboppi.Core.Budget.{
  over_budget, cost_of, after_cost, ExecutionBudgetConfig, ExecutionBudget, Call, acquires_slot,
  releases_slot, acquires_rate, acquires_cost, releases_cost, issues, consumes, releases, new,
  window_start, try_acquire_slot, release_slot, try_acquire_rate, try_acquire_cost, release_cost,
  can_issue, consume, release, step, run,
}

-- At most the cap, if there is one.
abbrev pub IsWithin : Option ℕ → ℕ → Type 0
IsWithin none cost = Unit
IsWithin (some cap) cost = cost ≤ cap

pub record IsWithinLimits (b : ExecutionBudget) : Type 0 where
  pub ring : IsRing b.rps_ring
  pub slots : b.rps_ring.capacity ≡ b.max_rps + 1
  pub rate : b.rps_ring.count ≤ b.max_rps
  pub cost : IsWithin b.max_cost_budget b.cumulative_cost

-- The ring after a count: a ring as before, and at most as full.
pub record Counted (r : RpsRing) (c : ℕ × RpsRing) : Type 0 where
  pub ring : IsRing c.1
  pub answer : c.0 ≡ c.1.count
  pub fewer : c.1.count ≤ r.count
  pub capacity : c.1.capacity ≡ r.capacity

pub count_in_window-Counted : (r : RpsRing) (w : ℤ) → IsRing r → Counted r (count_in_window w r)
unfolding count_in_window
count_in_window-Counted r w v = record {
  ring = count_in_window-IsRing r w v;
  answer = refl;
  fewer = omega arith;
  capacity = refl;
}

capacity-push :
    (r : RpsRing) (t : ℕ) → ((push t r).capacity ≡ r.capacity) × ((push t r).count ≡ r.count + 1)
unfolding push
capacity-push r t = (refl, refl)

pub new-IsWithinLimits : (c : ExecutionBudgetConfig) → IsWithinLimits (new c)
unfolding new RpsRing.new
new-IsWithinLimits c = record {
  ring = (new-IsRing c.max_rps).0;
  slots = refl;
  rate = omega arith;
  cost = ground arith;
}

module _ (b : ExecutionBudget) (now : ℕ) (v : IsWithinLimits b) where
  pub counted : Counted b.rps_ring (count_in_window (window_start now) b.rps_ring)
  counted = count_in_window-Counted b.rps_ring (window_start now) v.ring

  try_acquire_rate-IsWithinLimits : IsWithinLimits (try_acquire_rate now b).1
  unfolding try_acquire_rate
  try_acquire_rate-IsWithinLimits = ground (
    arith,
    counted,
    push-IsRing (count_in_window (window_start now) b.rps_ring).1 now counted.ring,
    capacity-push (count_in_window (window_start now) b.rps_ring).1 now,
  )

  pub can_issue-IsWithinLimits :
      (job : Job) (attempt : ℕ) → IsWithinLimits (can_issue job attempt now b).1
  unfolding can_issue
  can_issue-IsWithinLimits job attempt = ground (arith, counted)

  IsWithin-over_budget :
      (cost cap : Option ℕ) (spent : ℕ)
      → IsWithin cap spent
      → over_budget cost cap spent ≡ false
      → IsWithin cap (spent + cost_of cost)
  IsWithin-over_budget none none spent w h = tt
  IsWithin-over_budget (some c) none spent w h = tt
  IsWithin-over_budget none (some k) spent w h = omega arith
  IsWithin-over_budget (some c) (some k) spent w h = ground arith

  pub consume-IsWithinLimits : (tokens : PermitTokens) → IsWithinLimits (consume tokens now b).1
  unfolding consume
  consume-IsWithinLimits tokens = ground (
    arith,
    counted,
    push-IsRing (count_in_window (window_start now) b.rps_ring).1 now counted.ring,
    capacity-push (count_in_window (window_start now) b.rps_ring).1 now,
    IsWithin-over_budget tokens.cost_budget b.max_cost_budget b.cumulative_cost v.cost,
  )

IsWithin-sub : (cap : Option ℕ) (spent cost : ℕ) → IsWithin cap spent → IsWithin cap (spent - cost)
IsWithin-sub none spent cost w = tt
IsWithin-sub (some cap) spent cost w = omega arith

try_acquire_cost-IsWithinLimits :
    (cost : ℤ) (b : ExecutionBudget)
    → IsWithinLimits b
    → IsWithinLimits (after_cost b (try_acquire_cost cost b))
unfolding try_acquire_cost
try_acquire_cost-IsWithinLimits (negsuc _) b v = v
try_acquire_cost-IsWithinLimits (pos cost) b v = ground arith

pub step-IsWithinLimits :
    (c : Call) (b : ExecutionBudget) → IsWithinLimits b → IsWithinLimits (step c b)
unfolding step try_acquire_slot release_slot release_cost release
step-IsWithinLimits acquires_slot b v = ground arith
step-IsWithinLimits releases_slot b v = ground arith
step-IsWithinLimits (acquires_rate now) b v = try_acquire_rate-IsWithinLimits b now v
step-IsWithinLimits (acquires_cost cost) b v = try_acquire_cost-IsWithinLimits cost b v
step-IsWithinLimits (releases_cost cost) b v = record {
  ring = v.ring;
  slots = v.slots;
  rate = v.rate;
  cost = IsWithin-sub b.max_cost_budget b.cumulative_cost cost v.cost;
}
step-IsWithinLimits (issues job attempt now) b v = can_issue-IsWithinLimits b now v job attempt
step-IsWithinLimits (consumes tokens now) b v = consume-IsWithinLimits b now v tokens
step-IsWithinLimits (releases tokens) b v = record {
  ring = v.ring;
  slots = v.slots;
  rate = v.rate;
  cost = IsWithin-sub b.max_cost_budget b.cumulative_cost (cost_of tokens.cost_budget) v.cost;
}

run-IsWithinLimits :
    (cs : List Call) (b : ExecutionBudget) → IsWithinLimits b → IsWithinLimits (run cs b)
unfolding run
run-IsWithinLimits [] b v = v
run-IsWithinLimits (c ∷ cs) b v = run-IsWithinLimits cs (step c b) (step-IsWithinLimits c b v)

-- Whatever calls are made on a new budget, in whatever order and at whatever times: the array of
-- times never overflows, it holds at most `max_rps` times, and the cost in use is at most the cap.
pub run-new-IsWithinLimits :
    (c : ExecutionBudgetConfig) (cs : List Call) → IsWithinLimits (run cs (new c))
run-new-IsWithinLimits c cs = run-IsWithinLimits cs (new c) (new-IsWithinLimits c)
