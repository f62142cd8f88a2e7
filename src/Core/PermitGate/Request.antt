-- ===== src/Core/PermitGate/Request.antt =====
-- The steps of `request_permit`: the breaker, the budget, the tokens.
use roboppi.Base.{
  ℕ, ◌+◌, ◌*◌, ◌/◌, ◌≤◌, ◌≡◌, refl, inl, inr, Bool, true, false, Option, none, some, String, arith,
  if◌then◌else◌, Bool-cases, Option-cases, eq_refl,
}
use roboppi.Base.Dict
use roboppi.Base.Dict.{Dict, get-set}
use roboppi.Types.{Job, PermitRejectionReason, global_shed, deferred, circuit_open}
use mathlib.Core.Option
use roboppi.Core.CircuitBreaker.{CircuitBreaker}
use roboppi.Core.BreakerRegistry.{get, get_snapshot}
use roboppi.Core.BreakerRegistry.Providers.{get-get_snapshot}
use roboppi.Core.Backpressure.{BackpressureResponse, accept, reject, defer, degrade}
use roboppi.Core.Budget.{ExecutionBudget, can_issue, consume}
use roboppi.Core.Budget.Invariant.{IsWithinLimits, can_issue-IsWithinLimits, consume-IsWithinLimits}
use roboppi.Core.Budget.Issue.{AtMost, consume-can_issue}
use roboppi.Core.PermitGate.{
  Permit, PermitGate, Result, granted, rejected, Clock, granted_cost, make_permit, resolve_provider,
  ask_provider, activate, take_tokens, check_budget, check_breaker,
}
use roboppi.Core.PermitGate.Accounts.{
  IsBalanced, permit_cost, with_budget, activate-IsBalanced, can_issue_keeps, granted_cost-AtMost,
}

abbrev pub reason_of : Result → Option PermitRejectionReason
reason_of (granted _) = none
reason_of (rejected r) = some r.reason

module _ (job : Job) (attempt : ℕ) (clock : Clock) (p : Permit) (g : PermitGate)
    (v : IsWithinLimits g.budget)
    (m : AtMost p.tokens_granted.cost_budget job.limits.cost_hint) where
  abbrev checked : ExecutionBudget
  checked = (can_issue job attempt clock.checked g.budget).1

  abbrev taken : Bool × ExecutionBudget
  taken = consume p.tokens_granted clock.consumed checked

  -- Once the budget allows the permit, its tokens are there to take.
  check_budget_allowed :
      (can_issue job attempt clock.checked g.budget).0 ≡ none
      → check_budget job attempt p clock g ≡ (
        granted p,
        activate p (clock.armed + job.limits.timeout_ms) taken.1 (record g { budget = checked }),
      )
  unfolding check_budget take_tokens
  check_budget_allowed ok =
      rw (ok, check_budget)
        (rw
          (
            (consume-can_issue job attempt clock.checked g.budget ok p.tokens_granted clock.consumed
                v m).0,
            take_tokens,
          )
          refl)

  check_budget_refused :
      (reason : PermitRejectionReason)
      → (can_issue job attempt clock.checked g.budget).0 ≡ some reason
      → check_budget job attempt p clock g ≡ (
        rejected (record { reason = reason; detail = "Execution budget check failed" }),
        record g { budget = checked },
      )
  unfolding check_budget
  check_budget_refused reason no_ = rw (no_, check_budget) refl

  reason-check_budget :
      reason_of (check_budget job attempt p clock g).0
      ≡ (can_issue job attempt clock.checked g.budget).0
  reason-check_budget = elim (Option-cases (can_issue job attempt clock.checked g.budget).0) [
    | inl ok ↦ rw (check_budget_allowed ok, ok) refl
    | inr (reason, refusal) ↦ rw (check_budget_refused reason refusal, refusal) refl
  ]

  check_budget-IsBalanced :
      IsBalanced g
      → Dict.get p.permit_id g.active_permits ≡ none
      → IsBalanced (check_budget job attempt p clock g).1
  check_budget-IsBalanced w fresh =
      let (same, slots, cost) = can_issue_keeps job attempt clock.checked g.budget in
      let limits = can_issue-IsWithinLimits g.budget clock.checked v job attempt in
      let kept = with_budget g w checked limits same slots cost in
      elim (Option-cases (can_issue job attempt clock.checked g.budget).0) [
        | inl ok ↦
            let (_, config, one_more, room, spent) =
              consume-can_issue job attempt clock.checked g.budget ok p.tokens_granted
                clock.consumed v m in
            rw (check_budget_allowed ok) (
              activate-IsBalanced (record g { budget = checked }) kept p
                (clock.armed + job.limits.timeout_ms) taken.1 fresh
                (consume-IsWithinLimits checked clock.consumed limits p.tokens_granted)
                (omega (arith, one_more, slots)) (ground (arith, room, config))
                (omega (arith, spent, cost)))
        | inr (reason, refusal) ↦ rw (check_budget_refused reason refusal) kept
      ]

-- The cost of a permit for a job's hint: the hint, or half of it, rounded up, under DEGRADE.
abbrev pub Costs : Bool → Option ℕ → Option ℕ → Type 0
Costs false hint cost = cost ≡ hint
Costs true none cost = cost ≡ none
Costs true (some hint) cost = (n : ℕ) × (cost ≡ some n) × (hint ≤ 2 * n) × (2 * n ≤ hint + 1)

Costs-granted_cost :
    (degraded : Bool) (hint : Option ℕ) → Costs degraded hint (granted_cost degraded hint)
Costs-granted_cost false hint = refl
Costs-granted_cost true none = refl
Costs-granted_cost true (some hint) = ((hint + 1) / 2, refl, omega arith, omega arith)

pub data ResponseCases (r : BackpressureResponse) : Type 0 where
  accepts : r ≡ accept → ResponseCases r
  rejects : r ≡ reject → ResponseCases r
  defers : r ≡ defer → ResponseCases r
  degrades : r ≡ degrade → ResponseCases r

pub BackpressureResponse-cases : (r : BackpressureResponse) → ResponseCases r
BackpressureResponse-cases accept = accepts refl
BackpressureResponse-cases reject = rejects refl
BackpressureResponse-cases defer = defers refl
BackpressureResponse-cases degrade = degrades refl

abbrev pub is_degrade : BackpressureResponse → Bool
is_degrade degrade = true
is_degrade _ = false

-- The reason for which the gate refuses a job, or `none`.
abbrev pub verdict_after :
    BackpressureResponse → Bool → Option PermitRejectionReason → Option PermitRejectionReason
verdict_after reject blocked refusal = some global_shed
verdict_after defer blocked refusal = some deferred
verdict_after accept blocked refusal = if blocked then some circuit_open else refusal
verdict_after degrade blocked refusal = if blocked then some circuit_open else refusal

module _ (job : Job) (attempt : ℕ) (id : String) (clock : Clock) (g : PermitGate) where
  abbrev pub permit : Bool → Permit
  permit degraded = make_permit job attempt id clock degraded (get_snapshot g.circuit_breakers)

  abbrev asked : PermitGate
  asked = record g { circuit_breakers = (ask_provider (resolve_provider job) g.circuit_breakers).1 }

  permit-AtMost :
      (degraded : Bool) → AtMost (permit degraded).tokens_granted.cost_budget job.limits.cost_hint
  unfolding make_permit
  permit-AtMost degraded = granted_cost-AtMost degraded job.limits.cost_hint

  pub reason-check_breaker :
      (degraded : Bool)
      → IsWithinLimits g.budget
      → reason_of (check_breaker degraded job attempt id clock g).0 ≡ (
          if (ask_provider (resolve_provider job) g.circuit_breakers).0
          then some circuit_open
          else (can_issue job attempt clock.checked g.budget).0)
  unfolding check_breaker
  reason-check_breaker degraded v =
      elim (Bool-cases (ask_provider (resolve_provider job) g.circuit_breakers).0) [
        | inl h ↦ rw (h, check_breaker) refl
        | inr h ↦
            rw (h, check_breaker)
              (reason-check_budget job attempt clock (permit degraded) asked v
                (permit-AtMost degraded))
      ]

  pub check_breaker-IsBalanced :
      (degraded : Bool)
      → IsBalanced g
      → Dict.get id g.active_permits ≡ none
      → IsBalanced (check_breaker degraded job attempt id clock g).1
  unfolding check_breaker make_permit
  check_breaker-IsBalanced degraded v fresh =
      elim (Bool-cases (ask_provider (resolve_provider job) g.circuit_breakers).0) [
        | inl h ↦ rw (h, check_breaker) w
        | inr h ↦
            rw (h, check_breaker)
              (check_budget-IsBalanced job attempt clock (permit degraded) asked v.limits
                (permit-AtMost degraded) w fresh)
      ]
    where
      w : IsBalanced asked
      w = record {
        limits = v.limits;
        unique = v.unique;
        slots = v.slots;
        room = v.room;
        cost = v.cost;
        timed = v.timed;
        live = v.live;
      }

  -- What a granted permit carries, and what it leaves behind in the gate.
  pub record IsGranted (degraded : Bool) (r : Result × PermitGate) : Type 0 where
    pub given : Permit
    pub answer : r.0 ≡ granted given
    pub stored : Dict.get id r.1.active_permits ≡ some given
    pub own_id : given.permit_id ≡ id
    pub own_job : given.job_id ≡ job.job_id
    pub own_attempt : given.attempt_index ≡ attempt
    pub deadline : given.deadline_at ≡ clock.issued + job.limits.timeout_ms
    pub one_slot : given.tokens_granted.concurrency ≡ 1
    pub one_start : given.tokens_granted.rps ≡ 1
    pub costs : Costs degraded job.limits.cost_hint given.tokens_granted.cost_budget
    pub states :
        (provider : String)
        → Dict.get provider given.circuit_state_snapshot
          ≡ Option.map (λ (b : CircuitBreaker). b.state) (get provider g.circuit_breakers)
    pub timed : Dict.get id r.1.deadline_timers ≡ some (clock.armed + job.limits.timeout_ms)
    pub silent : Dict.get id r.1.signals ≡ some none
    pub slots : r.1.budget.active_slots ≡ g.budget.active_slots + 1
    pub cost : r.1.budget.cumulative_cost ≡ g.budget.cumulative_cost + permit_cost given

  check_budget-IsGranted :
      (degraded : Bool)
      → IsWithinLimits g.budget
      → (can_issue job attempt clock.checked g.budget).0 ≡ none
      → IsGranted degraded (check_budget job attempt (permit degraded) clock asked)
  unfolding activate make_permit
  check_budget-IsGranted degraded v ok =
      let (same, slots, cost) = can_issue_keeps job attempt clock.checked g.budget in
      let (_, config, one_more, room, spent) =
        consume-can_issue job attempt clock.checked g.budget ok (permit degraded).tokens_granted
          clock.consumed v (permit-AtMost degraded) in
      rw
        (check_budget_allowed job attempt clock (permit degraded) asked v (permit-AtMost degraded)
          ok)
        (record {
          given = permit degraded;
          answer = refl;
          own_id = refl;
          own_job = refl;
          own_attempt = refl;
          deadline = refl;
          one_slot = refl;
          one_start = refl;
          costs = Costs-granted_cost degraded job.limits.cost_hint;
          states = λ provider. get-get_snapshot provider g.circuit_breakers;
          stored = rw (get-set id id (permit degraded) g.active_permits, eq_refl id) refl;
          timed =
              rw (get-set id id (clock.armed + job.limits.timeout_ms) g.deadline_timers, eq_refl id)
                refl;
          silent =
              let quiet : Option String = none in
              rw (get-set id id quiet g.signals, eq_refl id) refl;
          slots = one_more;
          cost = spent;
        })

  let_through :
      (degraded : Bool)
      → IsWithinLimits g.budget
      → reason_of (check_breaker degraded job attempt id clock g).0 ≡ none
      → ((ask_provider (resolve_provider job) g.circuit_breakers).0 ≡ false)
        × ((can_issue job attempt clock.checked g.budget).0 ≡ none)
  let_through degraded v e = ground (arith, reason-check_breaker degraded v)

  pub check_breaker-IsGranted :
      (degraded : Bool)
      → IsWithinLimits g.budget
      → reason_of (check_breaker degraded job attempt id clock g).0 ≡ none
      → IsGranted degraded (check_breaker degraded job attempt id clock g)
  unfolding check_breaker
  check_breaker-IsGranted degraded v e =
      let (through, ok) = let_through degraded v e in
      rw (through, check_breaker) (check_budget-IsGranted degraded v ok)
