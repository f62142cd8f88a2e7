-- ===== src/Core/PermitGate/Run.antt =====
-- Any history of a gate.
use roboppi.Base.{◌≡◌, refl, none, List, [], ◌∷◌, arith}
use roboppi.Base.Dict
use roboppi.Core.BreakerRegistry.{Registry}
use roboppi.Core.Backpressure.{BackpressureController}
use roboppi.Core.Budget
use roboppi.Core.Budget.{ExecutionBudgetConfig}
use roboppi.Core.Budget.Invariant.{new-IsWithinLimits}
use roboppi.Core.PermitGate.{
  PermitGate, Event, requests, revokes, completes, fires, measures, observes, new, step, run,
}
use roboppi.Core.PermitGate.Accounts.{
  IsBalanced, revoke_permit-IsBalanced, complete_permit-IsBalanced, fire-IsBalanced,
}
use roboppi.Core.PermitGate.Answer.{request_permit-IsBalanced}

-- `generateId` gives no id that an active permit has.
abbrev pub IsFresh : Event → PermitGate → Type 0
IsFresh (requests _ _ id _) g = Dict.get id g.active_permits ≡ none
IsFresh _ g = Unit

abbrev pub AllFresh : List Event → PermitGate → Type 0
AllFresh [] g = Unit
AllFresh (e ∷ es) g = IsFresh e g × AllFresh es (step e g)

step-IsBalanced : (e : Event) (g : PermitGate) → IsFresh e g → IsBalanced g → IsBalanced (step e g)
unfolding step
step-IsBalanced (requests job attempt id clock) g f v =
    request_permit-IsBalanced job attempt id clock g v f
step-IsBalanced (revokes id reason) g f v = revoke_permit-IsBalanced g v id reason
step-IsBalanced (completes id) g f v = complete_permit-IsBalanced g v id
step-IsBalanced (fires id now) g f v = fire-IsBalanced g v id now
step-IsBalanced (measures metrics) g f v = record {
  limits = v.limits;
  unique = v.unique;
  slots = v.slots;
  room = v.room;
  cost = v.cost;
  timed = v.timed;
  live = v.live;
}
step-IsBalanced (observes provider config change) g f v = record {
  limits = v.limits;
  unique = v.unique;
  slots = v.slots;
  room = v.room;
  cost = v.cost;
  timed = v.timed;
  live = v.live;
}

pub run-IsBalanced :
    (es : List Event) (g : PermitGate) → AllFresh es g → IsBalanced g → IsBalanced (run es g)
unfolding run
run-IsBalanced [] g f v = v
run-IsBalanced (e ∷ es) g f v = run-IsBalanced es (step e g) f.1 (step-IsBalanced e g f.0 v)

-- After any requests with fresh ids, revocations, completions, deadlines and reports of metrics or
-- outcomes, in any order, a gate that started empty is balanced: the active slots are as many as the
-- active permits and at most `max_concurrency`, the cost in use is the sum of the permits' costs and
-- within the cap, exactly the active permits have a deadline timer, and none of them is aborted.
pub run-new-IsBalanced :
    (c : ExecutionBudgetConfig) (r : Registry) (b : BackpressureController) (es : List Event)
    → AllFresh es (new (Budget.new c) r b)
    → IsBalanced (run es (new (Budget.new c) r b))
unfolding new Budget.new Dict.get
run-new-IsBalanced c r b es f = run-IsBalanced es (new (Budget.new c) r b) f (record {
  limits = new-IsWithinLimits c;
  unique = tt;
  slots = refl;
  room = omega arith;
  cost = refl;
  timed = λ id. refl;
  live = λ id p e. cc;
})
