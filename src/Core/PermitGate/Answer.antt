-- ===== src/Core/PermitGate/Answer.antt =====
-- What `request_permit` answers.
use roboppi.Base.{true, false, ℕ, ◌≡◌, refl, none, String}
use roboppi.Base.Dict
use roboppi.Types.{Job}
use roboppi.Core.Backpressure.{check}
use roboppi.Core.Budget.{can_issue}
use roboppi.Core.Budget.Invariant.{IsWithinLimits}
use roboppi.Core.PermitGate.{PermitGate, Clock, resolve_provider, ask_provider, request_permit}
use roboppi.Core.PermitGate.Accounts.{IsBalanced}
use roboppi.Core.PermitGate.Request.{
  accepts, rejects, defers, degrades, BackpressureResponse-cases, is_degrade, verdict_after,
  reason_of, IsGranted, reason-check_breaker, check_breaker-IsGranted, check_breaker-IsBalanced,
}

module _ (job : Job) (attempt : ℕ) (id : String) (clock : Clock) (g : PermitGate) where
  -- The gate refuses a job for the first of these that holds: backpressure says reject, or defer; the
  -- breaker of the job's provider blocks, whatever the other breakers say; the budget's check refuses. Else it grants the permit: the
  -- second check of the budget, at a clock of its own, never fails.
  pub request_permit_lem :
      IsWithinLimits g.budget
      → reason_of (request_permit job attempt id clock g).0
        ≡ verdict_after
            (check g.backpressure)
            (ask_provider (resolve_provider job) g.circuit_breakers).0
            (can_issue job attempt clock.checked g.budget).0
  unfolding request_permit
  request_permit_lem v = elim (BackpressureResponse-cases (check g.backpressure)) [
    | accepts e ↦ rw (e, request_permit) (reason-check_breaker job attempt id clock g false v)
    | rejects e ↦ rw (e, request_permit) refl
    | defers e ↦ rw (e, request_permit) refl
    | degrades e ↦ rw (e, request_permit) (reason-check_breaker job attempt id clock g true v)
  ]

  -- A permit that is granted has the given id, the job's id, the attempt, a deadline that is the job's timeout
  -- behind the clock, one slot and one start, the hinted cost, or half of it, rounded up, when backpressure
  -- degrades it, and for each provider the state of its breaker before the request. It is stored under its id
  -- with a timer and a signal that is not aborted, and the budget counts its slot and its cost.
  pub request_permit-IsGranted :
      IsWithinLimits g.budget
      → reason_of (request_permit job attempt id clock g).0 ≡ none
      → IsGranted job attempt id clock g
          (is_degrade (check g.backpressure))
          (request_permit job attempt id clock g)
  unfolding request_permit
  request_permit-IsGranted v h = elim (BackpressureResponse-cases (check g.backpressure)) [
    | accepts e ↦
        rw (e, request_permit)
          (check_breaker-IsGranted job attempt id clock g false v (rw (e, request_permit) at h))
    | rejects e ↦ cc (rw (e, request_permit) at h)
    | defers e ↦ cc (rw (e, request_permit) at h)
    | degrades e ↦
        rw (e, request_permit)
          (check_breaker-IsGranted job attempt id clock g true v (rw (e, request_permit) at h))
  ]

  pub request_permit-IsBalanced :
      IsBalanced g
      → Dict.get id g.active_permits ≡ none
      → IsBalanced (request_permit job attempt id clock g).1
  unfolding request_permit
  request_permit-IsBalanced v fresh = elim (BackpressureResponse-cases (check g.backpressure)) [
    | accepts e ↦
        rw (e, request_permit) (check_breaker-IsBalanced job attempt id clock g false v fresh)
    | rejects e ↦ rw (e, request_permit) v
    | defers e ↦ rw (e, request_permit) v
    | degrades e ↦
        rw (e, request_permit) (check_breaker-IsBalanced job attempt id clock g true v fresh)
  ]
