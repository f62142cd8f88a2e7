-- ===== src/Workflow/DagValidator/Sound.antt =====
-- src/workflow/dag-validator.ts reports no error exactly for the workflows that are valid.
use roboppi.Base.{String, ◌≡◌, ap, sym, ◌∙◌, ◌↔◌, inl, inr, List, [], arith, length, All}
use roboppi.Workflow.Types.{Steps, keys}
use roboppi.Workflow.CycleDetection.{detect_cycles}
use roboppi.Workflow.CycleDetection.Counting.{Distinct}
use roboppi.Workflow.CycleDetection.Verdict.{IsComplete, detect_cycles_lem, not_stuck, stuck_step}
use roboppi.Workflow.DagValidator.{check_steps, validate_dag}
use roboppi.Workflow.DagValidator.Names.{append_nil, nil_append}
use roboppi.Workflow.DagValidator.Checks.{IsValidStep, check_steps-nil, nil-check_steps}

-- Valid steps that can run one after the other.
pub record IsValidWorkflow (steps : Steps) : Type 0 where
  pub each : All (λ e. IsValidStep (keys steps) e.1) steps
  pub order : List String
  pub is_complete : IsComplete steps order

sorted_if_complete :
    (steps : Steps) (order : List String)
    → Distinct (keys steps)
    → IsComplete steps order
    → detect_cycles steps ≡ []
sorted_if_complete steps order distinct c = elim (detect_cycles_lem steps distinct) [
  | inl (e, found, ok) ↦ e
  | inr (xs, e, cycle) ↦ absurd (
      not_stuck steps order xs cycle.member c.ordered cycle.stuck
        (c.complete cycle.member (stuck_step steps xs cycle.member cycle.stuck cycle.is_member))
        cycle.is_member)
]

valid_if_sorted :
    (steps : Steps)
    → Distinct (keys steps)
    → All (λ e. IsValidStep (keys steps) e.1) steps
    → detect_cycles steps ≡ []
    → IsValidWorkflow steps
valid_if_sorted steps distinct each none_found = elim (detect_cycles_lem steps distinct) [
  | inl (e, order, c) ↦ record { each = each; order = order; is_complete = c }
  | inr (xs, e, cycle) ↦ absurd (omega (arith, ap (λ l. length l) (sym none_found ∙ e)))
]

-- A workflow that lists no step twice has no error exactly if each step is valid and the steps have an
-- order in which each comes after those that it depends on.
pub validate_dag_lem :
    (steps : Steps) → Distinct (keys steps) → (validate_dag steps ≡ []) ↔ IsValidWorkflow steps
unfolding validate_dag
validate_dag_lem steps distinct = (
  (λ h.
      let (each, sorted) = append_nil (check_steps (keys steps) steps) (detect_cycles steps) h in
      valid_if_sorted steps distinct (check_steps-nil (keys steps) steps each) sorted),
  (λ v.
      nil_append (check_steps (keys steps) steps) (detect_cycles steps)
        (nil-check_steps (keys steps) steps v.each)
        (sorted_if_complete steps v.order distinct v.is_complete)),
)
