-- ===== src/Core/PermitGate/Actives.antt =====
-- Which permits are active after an operation of src/core/permit-gate.ts.
use roboppi.Base.{
  ℕ, ◌≡◌, refl, inl, inr, String, eq_refl, Bool, true, false, Option, none, some, arith, leb,
  if◌then◌else◌, Bool-cases, Option-cases,
}
use roboppi.Base.Dict
use roboppi.Base.Dict.{Dict, get-delete, get-set}
use roboppi.Types.{Job}
use roboppi.Core.Backpressure.{check}
use roboppi.Core.BreakerRegistry.{get_snapshot}
use roboppi.Core.Budget.{can_issue, consume}
use roboppi.Core.PermitGate.{
  Permit, PermitRejection, PermitGate, Clock, Result, granted, rejected, make_permit, activate,
  take_tokens, check_budget, check_breaker, request_permit, resolve_provider, ask_provider, retire,
  revoke_permit, complete_permit, fire, dispose,
}
use roboppi.Core.PermitGate.Request.{accepts, rejects, defers, degrades, BackpressureResponse-cases}

-- No permit becomes active.
abbrev pub Shrinks : PermitGate → PermitGate → Type 0
Shrinks g h =
    (id : String) (p : Permit)
    → Dict.get id h.active_permits ≡ some p
    → Dict.get id g.active_permits ≡ some p

delete-Shrinks :
    (k id : String) (p : Permit) (m : Dict Permit)
    → Dict.get id (Dict.delete k m) ≡ some p
    → Dict.get id m ≡ some p
delete-Shrinks k id p m h = ground (arith, get-delete k id m, h)

pub complete_permit-Shrinks : (id : String) (g : PermitGate) → Shrinks g (complete_permit id g)
unfolding complete_permit retire
complete_permit-Shrinks id g j p h = elim (Option-cases (Dict.get id g.active_permits)) [
  | inl e ↦ rw (e, complete_permit) at h
  | inr (q, e) ↦ delete-Shrinks id j p g.active_permits (rw (e, complete_permit) at h)
]

pub revoke_permit-Shrinks :
    (id : String) (reason : Option String) (g : PermitGate) → Shrinks g (revoke_permit id reason g)
unfolding revoke_permit retire
revoke_permit-Shrinks id reason g j p h = elim (Option-cases (Dict.get id g.active_permits)) [
  | inl e ↦ rw (e, revoke_permit) at h
  | inr (q, e) ↦ delete-Shrinks id j p g.active_permits (rw (e, revoke_permit) at h)
]

pub fire-Shrinks : (id : String) (now : ℕ) (g : PermitGate) → Shrinks g (fire id now g)
unfolding fire
fire-Shrinks id now g j p h = elim (Option-cases (Dict.get id g.deadline_timers)) [
  | inl e ↦ rw (e, fire) at h
  | inr (due, e) ↦ due_or_not (leb due now) (rw (e, fire) at h)
]
  where
    due_or_not :
        (b : Bool)
        → Dict.get j (if b then revoke_permit id (some "Deadline exceeded") g else g).active_permits
          ≡ some p
        → Dict.get j g.active_permits ≡ some p
    due_or_not true h = revoke_permit-Shrinks id (some "Deadline exceeded") g j p h
    due_or_not false h = h

pub dispose-Shrinks : (g : PermitGate) → Shrinks g (dispose g)
unfolding dispose Dict.get
dispose-Shrinks g j p h = absurd (cc)

-- A permit that is completed is active no longer.
pub get-complete_permit :
    (id : String) (g : PermitGate) → Dict.get id (complete_permit id g).active_permits ≡ none
unfolding complete_permit retire
get-complete_permit id g = elim (Option-cases (Dict.get id g.active_permits)) [
  | inl e ↦ rw (e, complete_permit) e
  | inr (q, e) ↦ rw (e, complete_permit) (rw (get-delete id id g.active_permits, eq_refl id) refl)
]

-- What a request leaves: a granted permit, of the job and under the id, is added; else nothing changes.
pub data Leaves (job_id id : String) (before : Dict Permit) (r : Result × PermitGate) : Type 0 where
  adds :
      (p : Permit)
      → r.0 ≡ granted p
      → p.permit_id ≡ id
      → p.job_id ≡ job_id
      → r.1.active_permits ≡ Dict.set id p before
      → Leaves job_id id before r
  keeps :
      (n : PermitRejection)
      → r.0 ≡ rejected n
      → r.1.active_permits ≡ before
      → Leaves job_id id before r

take_tokens-Leaves :
    (p : Permit) (timeout : ℕ) (clock : Clock) (g : PermitGate)
    → Leaves p.job_id p.permit_id g.active_permits (take_tokens p timeout clock g)
unfolding take_tokens activate
take_tokens-Leaves p timeout clock g =
    elim (Bool-cases (consume p.tokens_granted clock.consumed g.budget).0) [
      | inl e ↦ rw (e, take_tokens) (adds p refl refl refl refl)
      | inr e ↦ rw (e, take_tokens) (keeps _ refl refl)
    ]

check_budget-Leaves :
    (job : Job) (attempt : ℕ) (p : Permit) (clock : Clock) (g : PermitGate)
    → Leaves p.job_id p.permit_id g.active_permits (check_budget job attempt p clock g)
unfolding check_budget
check_budget-Leaves job attempt p clock g =
    elim (Option-cases (can_issue job attempt clock.checked g.budget).0) [
      | inl e ↦
          rw (e, check_budget)
            (take_tokens-Leaves p job.limits.timeout_ms clock
              (record g { budget = (can_issue job attempt clock.checked g.budget).1 }))
      | inr (reason, e) ↦ rw (e, check_budget) (keeps _ refl refl)
    ]

check_breaker-Leaves :
    (degraded : Bool) (job : Job) (attempt : ℕ) (id : String) (clock : Clock) (g : PermitGate)
    → Leaves job.job_id id g.active_permits (check_breaker degraded job attempt id clock g)
unfolding check_breaker make_permit
check_breaker-Leaves degraded job attempt id clock g =
    elim (Bool-cases (ask_provider (resolve_provider job) g.circuit_breakers).0) [
      | inl e ↦ rw (e, check_breaker) (keeps _ refl refl)
      | inr e ↦
          rw (e, check_breaker)
            (check_budget-Leaves job attempt
              (make_permit job attempt id clock degraded (get_snapshot g.circuit_breakers)) clock
              (record g {
                circuit_breakers = (ask_provider (resolve_provider job) g.circuit_breakers).1;
              }))
    ]

pub request_permit-Leaves :
    (job : Job) (attempt : ℕ) (id : String) (clock : Clock) (g : PermitGate)
    → Leaves job.job_id id g.active_permits (request_permit job attempt id clock g)
unfolding request_permit
request_permit-Leaves job attempt id clock g =
    elim (BackpressureResponse-cases (check g.backpressure)) [
      | accepts e ↦ rw (e, request_permit) (check_breaker-Leaves false job attempt id clock g)
      | rejects e ↦ rw (e, request_permit) (keeps _ refl refl)
      | defers e ↦ rw (e, request_permit) (keeps _ refl refl)
      | degrades e ↦ rw (e, request_permit) (check_breaker-Leaves true job attempt id clock g)
    ]
