-- ===== src/Core/PermitGate/Accounts.antt =====
-- The budget always accounts for exactly the active permits.
use roboppi.Base.{
  or_default, ℕ, ◌+◌, ◌≤◌, ◌≡◌, refl, ◌∙◌, inl, inr, Bool, true, false, Option, none, some, String,
  arith, leb, Bool-cases, Option-cases, eq_iff, str_eq,
}
use roboppi.Base.Dict
use roboppi.Base.Dict.{Dict, is_some, Unique, total, get-set, get-delete}
use roboppi.Base.Dict.Sums.{
  set-Unique, delete-Unique, total-set_new, total-delete, size-set_new, size-delete,
}
use roboppi.Types.{Job}
use roboppi.Core.Budget
use roboppi.Core.Budget.{ExecutionBudget, cost_of, can_issue, consume, release}
use roboppi.Core.Budget.Invariant.{IsWithinLimits}
use roboppi.Core.Budget.Invariant
use roboppi.Core.Budget.Issue.{AtMost}
use roboppi.Core.PermitGate.{
  Permit, PermitGate, granted_cost, activate, abort, retire, revoke_permit, complete_permit, fire,
}

abbrev pub permit_cost : Permit → ℕ
permit_cost p = cost_of p.tokens_granted.cost_budget

pub record IsBalanced (g : PermitGate) : Type 0 where
  pub limits : IsWithinLimits g.budget
  pub unique : Unique g.active_permits
  pub slots : g.budget.active_slots ≡ Dict.size g.active_permits
  pub room : g.budget.active_slots ≤ g.budget.max_concurrency
  pub cost : g.budget.cumulative_cost ≡ total permit_cost g.active_permits
  pub timed :
      (id : String)
      → is_some (Dict.get id g.deadline_timers) ≡ is_some (Dict.get id g.active_permits)
  pub live :
      (id : String) (p : Permit)
      → Dict.get id g.active_permits ≡ some p
      → (p.permit_id ≡ id) × (Dict.get id g.signals ≡ some none)

module _ (g : PermitGate) (v : IsBalanced g) where
  -- A change of the budget that touches only its ring.
  pub with_budget :
      (b : ExecutionBudget)
      → IsWithinLimits b
      → b.config ≡ g.budget.config
      → b.active_slots ≡ g.budget.active_slots
      → b.cumulative_cost ≡ g.budget.cumulative_cost
      → IsBalanced (record g { budget = b })
  with_budget b w c s k = record {
    limits = w;
    unique = v.unique;
    slots = s ∙ v.slots;
    room = ground (arith, v.room);
    cost = k ∙ v.cost;
    timed = v.timed;
    live = v.live;
  }

  pub activate-IsBalanced :
      (p : Permit) (due : ℕ) (b : ExecutionBudget)
      → Dict.get p.permit_id g.active_permits ≡ none
      → IsWithinLimits b
      → b.active_slots ≡ g.budget.active_slots + 1
      → b.active_slots ≤ b.max_concurrency
      → b.cumulative_cost ≡ g.budget.cumulative_cost + permit_cost p
      → IsBalanced (activate p due b g)
  unfolding activate
  activate-IsBalanced p due b fresh w s r k = record {
    limits = w;
    unique = set-Unique p.permit_id p g.active_permits v.unique;
    slots = omega (arith, v.slots, size-set_new p.permit_id p g.active_permits fresh);
    room = r;
    cost = omega (arith, v.cost, total-set_new permit_cost p.permit_id p g.active_permits fresh);
    timed = λ id. ground (
      arith,
      v.timed id,
      get-set p.permit_id id p g.active_permits,
      get-set p.permit_id id due g.deadline_timers,
    );
    live = λ id q e.
        let silent : Option String = none in
        ground (
          arith,
          v.live id q,
          eq_iff p.permit_id id,
          get-set p.permit_id id p g.active_permits,
          get-set p.permit_id id silent g.signals,
          e,
        );
  }

  -- A permit that is retired takes its slot, its cost, its timer and its place with it, whatever
  -- happens to its own signal.
  pub retire-IsBalanced :
      (id : String) (p : Permit) (signals : Dict (Option String))
      → Dict.get id g.active_permits ≡ some p
      → ((j : String) → str_eq id j ≡ false → Dict.get j signals ≡ Dict.get j g.signals)
      → IsBalanced (retire id p (record g { signals = signals }))
  unfolding retire release Budget.step
  retire-IsBalanced id p signals e others = record {
    limits = Invariant.step-IsWithinLimits (Budget.releases p.tokens_granted) g.budget v.limits;
    unique = delete-Unique id g.active_permits v.unique;
    slots = ground (arith, v.slots, size-delete id p g.active_permits v.unique e);
    room = ground (arith, v.room);
    cost = omega (arith, v.cost, total-delete permit_cost id p g.active_permits v.unique e);
    timed = λ j.
        ground
          (arith, v.timed j, get-delete id j g.active_permits, get-delete id j g.deadline_timers);
    live = λ j q h. ground (arith, v.live j q, get-delete id j g.active_permits, h, others j);
  }

pub abort_others :
    (id j reason : String) (signals : Dict (Option String))
    → str_eq id j ≡ false
    → Dict.get j (abort id reason signals) ≡ Dict.get j signals
unfolding abort
abort_others id j reason signals h = ground (arith, get-set id j (some reason) signals)

pub can_issue_keeps :
    (job : Job) (attempt now : ℕ) (b : ExecutionBudget)
    → let c = (can_issue job attempt now b).1 in
      (c.config ≡ b.config)
      × (c.active_slots ≡ b.active_slots)
      × (c.cumulative_cost ≡ b.cumulative_cost)
unfolding can_issue
can_issue_keeps job attempt now b = ground arith

-- The cost that a permit is granted is at most the hint.
pub granted_cost-AtMost :
    (degraded : Bool) (hint : Option ℕ) → AtMost (granted_cost degraded hint) hint
granted_cost-AtMost true (some hint) = omega arith
granted_cost-AtMost true none = tt
granted_cost-AtMost false (some hint) = omega arith
granted_cost-AtMost false none = tt

module _ (g : PermitGate) (v : IsBalanced g) where
  pub revoke_permit-IsBalanced :
      (id : String) (reason : Option String) → IsBalanced (revoke_permit id reason g)
  unfolding revoke_permit
  revoke_permit-IsBalanced id reason = elim (Option-cases (Dict.get id g.active_permits)) [
    | inl e ↦ rw (e, revoke_permit) v
    | inr (p, e) ↦
        rw (e, revoke_permit)
          (retire-IsBalanced g v id p (abort id (or_default reason "Permit revoked") g.signals) e
            (λ j h. abort_others id j (or_default reason "Permit revoked") g.signals h))
  ]

  pub complete_permit-IsBalanced : (id : String) → IsBalanced (complete_permit id g)
  unfolding complete_permit
  complete_permit-IsBalanced id = elim (Option-cases (Dict.get id g.active_permits)) [
    | inl e ↦ rw (e, complete_permit) v
    | inr (p, e) ↦ rw (e, complete_permit) (retire-IsBalanced g v id p g.signals e (λ j h. refl))
  ]

  pub fire-IsBalanced : (id : String) (now : ℕ) → IsBalanced (fire id now g)
  unfolding fire
  fire-IsBalanced id now = elim (Option-cases (Dict.get id g.deadline_timers)) [
    | inl e ↦ rw (e, fire) v
    | inr (due, e) ↦ elim (Bool-cases (leb due now)) [
      | inl h ↦ rw (e, fire) (rw h (revoke_permit-IsBalanced id (some "Deadline exceeded")))
      | inr h ↦ rw (e, fire) (rw h v)
    ]
  ]
