-- ===== src/Core/PermitGate/Release.antt =====
-- A permit ends once, and gives back what it took.
use roboppi.Base.{
  or_default, ℕ, ◌-◌, ◌≡◌, refl, ap, ◌∙◌, inl, inr, Option, none, some, String, arith,
  if◌then◌else◌, Option-cases, eq_iff, eq_refl, str_eq,
}
use roboppi.Base.Dict
use roboppi.Base.Dict.{Dict, get-set, get-delete, is_some}
use roboppi.Types.{Job}
use roboppi.Core.Backpressure.{check}
use roboppi.Core.Budget.{ExecutionBudget, release}
use roboppi.Core.PermitGate.{
  get_active_permit_count, Permit, PermitGate, Clock, request_permit, abort, retire, revoke_permit,
  complete_permit, fire,
}
use roboppi.Core.PermitGate.Accounts.{
  revoke_permit-IsBalanced, complete_permit-IsBalanced, IsBalanced, permit_cost,
}
use roboppi.Core.PermitGate.Request.{reason_of, is_degrade, IsGranted}
use roboppi.Core.PermitGate.Answer.{request_permit-IsBalanced, request_permit-IsGranted}

-- The two ways for a permit to end.
pub data Ending : Type 0 where
  revoked : Option String → Ending
  completed : Ending

abbrev pub finish : Ending → String → PermitGate → PermitGate
finish (revoked reason) id g = revoke_permit id reason g
finish completed id g = complete_permit id g

finish_absent :
    (e : Ending) (id : String) (g : PermitGate)
    → Dict.get id g.active_permits ≡ none
    → finish e id g ≡ g
unfolding revoke_permit complete_permit
finish_absent (revoked reason) id g h = rw (h, revoke_permit) refl
finish_absent completed id g h = rw (h, complete_permit) refl

-- Whatever ended a permit, it is active no longer, and its timer is gone if it had one.
get-finish :
    (e : Ending) (id : String) (g : PermitGate)
    → IsBalanced g
    → (Dict.get id (finish e id g).active_permits ≡ none)
      × (Dict.get id (finish e id g).deadline_timers ≡ none)
unfolding retire revoke_permit complete_permit
get-finish e id g v = elim (Option-cases (Dict.get id g.active_permits)) [
  | inl h ↦ rw (finish_absent e id g h) (h, untimed h)
  | inr (p, h) ↦ ended e p h
]
  where
    untimed : Dict.get id g.active_permits ≡ none → Dict.get id g.deadline_timers ≡ none
    untimed h = ground (arith, v.timed id, h)

    gone :
        (p : Permit) (signals : Dict (Option String))
        → (Dict.get id (retire id p (record g { signals = signals })).active_permits ≡ none)
          × (Dict.get id (retire id p (record g { signals = signals })).deadline_timers ≡ none)
    gone p signals = (
      rw (get-delete id id g.active_permits, eq_refl id) refl,
      rw (get-delete id id g.deadline_timers, eq_refl id) refl,
    )

    ended :
        (e : Ending) (p : Permit)
        → Dict.get id g.active_permits ≡ some p
        → (Dict.get id (finish e id g).active_permits ≡ none)
          × (Dict.get id (finish e id g).deadline_timers ≡ none)
    ended (revoked reason) p h =
        rw (h, revoke_permit) (gone p (abort id (or_default reason "Permit revoked") g.signals))
    ended completed p h = rw (h, complete_permit) (gone p g.signals)

fire_untimed :
    (id : String) (now : ℕ) (g : PermitGate)
    → Dict.get id g.deadline_timers ≡ none
    → fire id now g ≡ g
unfolding fire
fire_untimed id now g h = rw (h, fire) refl

-- Of a completion, a revocation and a deadline that race for one permit, only the first has an effect:
-- in a balanced gate every later one leaves the gate as it is.
finish_once :
    (first second : Ending) (id : String) (now : ℕ) (g : PermitGate)
    → IsBalanced g
    → (finish second id (finish first id g) ≡ finish first id g)
      × (fire id now (finish first id g) ≡ finish first id g)
finish_once first second id now g v =
    let (inactive, untimed) = get-finish first id g v in
    (
      finish_absent second id (finish first id g) inactive,
      fire_untimed id now (finish first id g) untimed,
    )

-- What a permit's signal shows after the permit ended.
abbrev pub signal_after : Ending → Option String
signal_after (revoked reason) = some (or_default reason "Permit revoked")
signal_after completed = none

-- Ending an active permit of a balanced gate aborts its signal with the given reason if it is
-- revoked, and leaves it alone if it is completed. No other signal changes.
finish_signal :
    (e : Ending) (id j : String) (p : Permit) (g : PermitGate)
    → IsBalanced g
    → Dict.get id g.active_permits ≡ some p
    → Dict.get j (finish e id g).signals
      ≡ (if str_eq id j then some (signal_after e) else Dict.get j g.signals)
unfolding revoke_permit complete_permit retire abort
finish_signal (revoked reason) id j p g v h =
    rw (h, revoke_permit)
      (ground
        (arith, v.live id p h, get-set id j (some (or_default reason "Permit revoked")) g.signals))
finish_signal completed id j p g v h =
    rw (h, complete_permit) (ground (arith, v.live id p h, eq_iff id j, v.live j p))

budget-finish :
    (e : Ending) (id : String) (p : Permit) (g : PermitGate)
    → Dict.get id g.active_permits ≡ some p
    → (finish e id g).budget ≡ release p.tokens_granted g.budget
unfolding revoke_permit complete_permit retire
budget-finish (revoked reason) id p g h = rw (h, revoke_permit) refl
budget-finish completed id p g h = rw (h, complete_permit) refl

finish-IsBalanced :
    (e : Ending) (id : String) (g : PermitGate) → IsBalanced g → IsBalanced (finish e id g)
finish-IsBalanced (revoked reason) id g v = revoke_permit-IsBalanced g v id reason
finish-IsBalanced completed id g v = complete_permit-IsBalanced g v id

release_parts :
    (p : Permit) (b : ExecutionBudget)
    → ((release p.tokens_granted b).active_slots ≡ b.active_slots - 1)
      × ((release p.tokens_granted b).cumulative_cost ≡ b.cumulative_cost - permit_cost p)
unfolding release
release_parts p b = ground arith

-- A permit that is granted by a balanced gate under a fresh id, and then ended, gives back all it
-- took: the active slots, the cost in use and the number of active permits are as before.
pub finish-request_permit :
    (e : Ending) (job : Job) (attempt : ℕ) (id : String) (clock : Clock) (g : PermitGate)
    → IsBalanced g
    → Dict.get id g.active_permits ≡ none
    → reason_of (request_permit job attempt id clock g).0 ≡ none
    → let h = finish e id (request_permit job attempt id clock g).1 in
      (h.budget.active_slots ≡ g.budget.active_slots)
      × (h.budget.cumulative_cost ≡ g.budget.cumulative_cost)
      × (get_active_permit_count h ≡ get_active_permit_count g)
finish-request_permit e job attempt id clock g v fresh ok =
    (slots, cost, omega (arith, slots, v.slots, w.slots))
  where
    s : PermitGate
    s = (request_permit job attempt id clock g).1

    given :
        IsGranted job attempt id clock g
          (is_degrade (check g.backpressure))
          (request_permit job attempt id clock g)
    given = request_permit-IsGranted job attempt id clock g v.limits ok

    q : Permit
    q = given.given

    w : IsBalanced (finish e id s)
    w = finish-IsBalanced e id s (request_permit-IsBalanced job attempt id clock g v fresh)

    slots : (finish e id s).budget.active_slots ≡ g.budget.active_slots
    slots =
        ap (λ b. b.active_slots) (budget-finish e id q s given.stored)
        ∙ ((release_parts q s.budget).0 ∙ omega (arith, given.slots))

    cost : (finish e id s).budget.cumulative_cost ≡ g.budget.cumulative_cost
    cost =
        ap (λ b. b.cumulative_cost) (budget-finish e id q s given.stored)
        ∙ ((release_parts q s.budget).1 ∙ omega (arith, given.cost))
