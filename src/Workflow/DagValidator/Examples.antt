-- ===== src/Workflow/DagValidator/Examples.antt =====
-- A workflow with a fault in each field, checked as in src/workflow/dag-validator.ts.
use roboppi.Base.{String, ◌≡◌, ◌↔◌, refl, true, none, some, List, [], ◌∷◌}
use roboppi.Workflow.Types.{
  StepDefinition, Steps, unknown_step, not_in_depends_on, duplicate_output, unsafe_path,
  max_iterations_is,
}
use roboppi.Workflow.CycleDetection.{cycle_error}
use roboppi.Workflow.DagValidator.{validate_dag, error_at}
use roboppi.Workflow.DagValidator.Sound.{IsValidWorkflow, validate_dag_lem}

abbrev faulty : StepDefinition
faulty = record {
  workflow = none;
  exports = none;
  depends_on = some ("gone" ∷ "self" ∷ []);
  inputs = some (record { from = "build" } ∷ []);
  outputs =
      some
        (record { name = "log"; path = "out/log" } ∷ record { name = "log"; path = "../log" } ∷ []);
  completion_check = true;
  max_iterations = some 1;
}

abbrev workflow : Steps
workflow = ("self", faulty) ∷ []

finds_all :
    validate_dag workflow
    ≡ error_at "self" "depends_on" (unknown_step "self" "gone")
      ∷ error_at "self" "inputs" (not_in_depends_on "self" "build")
      ∷ error_at "self" "outputs" (duplicate_output "self" "log")
      ∷ error_at "self" "outputs" (unsafe_path "self" "log" "../log")
      ∷ error_at "self" "completion_check" (max_iterations_is "self" (some 1))
      ∷ cycle_error ("self" ∷ [])
      ∷ []
unfolding roboppi.Workflow.DagValidator.validate_dag roboppi.Workflow.DagValidator.check_steps
    roboppi.Workflow.DagValidator.check_step roboppi.Workflow.DagValidator.check_depends_on
    roboppi.Workflow.DagValidator.check_inputs roboppi.Workflow.DagValidator.check_outputs
    roboppi.Workflow.DagValidator.check_completion roboppi.Workflow.DagValidator.check_exports
    roboppi.Workflow.CycleDetection.detect_cycles roboppi.Workflow.CycleDetection.verdict
    roboppi.Workflow.CycleDetection.in_cycle roboppi.Workflow.CycleDetection.sort
    roboppi.Workflow.CycleDetection.relax roboppi.Workflow.CycleDetection.roots
    roboppi.Workflow.CycleDetection.build roboppi.Workflow.CycleDetection.add_edges
    roboppi.Workflow.CycleDetection.add_edge roboppi.Workflow.CycleDetection.no_edges
    roboppi.Base.Dict.get roboppi.Base.Dict.has roboppi.Base.Dict.set
finds_all = refl

validate_dag_lem_example : (validate_dag workflow ≡ []) ↔ IsValidWorkflow workflow
validate_dag_lem_example = validate_dag_lem workflow (refl, tt)
