-- ===== src/Workflow/CycleDetection/Examples.antt =====
-- Workflows with and without a cycle, sorted as in src/workflow/dag-validator.ts.
use roboppi.Base.{
  mem, Bool-cases, str_eq, eq_iff, subst, arith, inl, inr, String, ◌≡◌, ◌≢◌, refl, ◌⊎◌, true, false,
  Option, none, some, List, [], ◌∷◌, if◌then◌else◌,
}
use roboppi.Workflow.Types.{StepDefinition, Steps}
use roboppi.Workflow.CycleDetection.{detect_cycles, cycle_error}
use roboppi.Workflow.CycleDetection.Graph.{IsStuck, steps_before}
use roboppi.Workflow.CycleDetection.Verdict.{IsComplete, IsCycle, detect_cycles_lem}

abbrev step_after : List String → StepDefinition
step_after deps = record {
  workflow = none;
  exports = none;
  depends_on = some deps;
  inputs = none;
  outputs = none;
  completion_check = false;
  max_iterations = none;
}

abbrev diamond : Steps
diamond =
    ("test", step_after ("build" ∷ "lint" ∷ []))
    ∷ ("build", step_after ("fetch" ∷ []))
    ∷ ("lint", step_after ("fetch" ∷ "fetch" ∷ []))
    ∷ ("fetch", step_after [])
    ∷ []

abbrev looped : Steps
looped =
    ("fetch", step_after [])
    ∷ ("build", step_after ("fetch" ∷ "test" ∷ []))
    ∷ ("test", step_after ("build" ∷ []))
    ∷ []

all_open : Unit {0}
unfolding roboppi.Workflow.CycleDetection.detect_cycles roboppi.Workflow.CycleDetection.verdict
    roboppi.Workflow.CycleDetection.in_cycle roboppi.Workflow.CycleDetection.sort
    roboppi.Workflow.CycleDetection.relax roboppi.Workflow.CycleDetection.roots
    roboppi.Workflow.CycleDetection.build roboppi.Workflow.CycleDetection.add_edges
    roboppi.Workflow.CycleDetection.add_edge roboppi.Workflow.CycleDetection.no_edges
    roboppi.Base.Dict.get roboppi.Base.Dict.has roboppi.Base.Dict.set
    roboppi.Workflow.CycleDetection.Graph.known roboppi.Workflow.CycleDetection.Graph.deps_of
all_open = tt

diamond_sorts : detect_cycles diamond ≡ []
unfolding all_open
diamond_sorts = refl

looped_fails : detect_cycles looped ≡ cycle_error ("build" ∷ "test" ∷ []) ∷ []
unfolding all_open
looped_fails = refl

detect_cycles_lem_example :
    ((detect_cycles diamond ≡ []) × (order : List String) × IsComplete diamond order)
    ⊎ (xs : List String) × (detect_cycles diamond ≡ cycle_error xs ∷ []) × IsCycle diamond xs
detect_cycles_lem_example = detect_cycles_lem diamond (refl, (refl, (refl, (refl, tt))))

build_waits : IsStuck looped ("build" ∷ "test" ∷ [])
unfolding all_open
build_waits x m = elim (Bool-cases (str_eq "build" x)) [
  | inl e ↦ subst Waits ((eq_iff "build" x).0 e) ("test", refl, refl)
  | inr n ↦
      let test : str_eq "test" x ≡ true = ground arith in
      subst Waits ((eq_iff "test" x).0 test) ("build", refl, refl)
]
  where
    Waits : String → Type 0
    Waits y =
        (d : String) × (mem d (steps_before looped y) ≡ true)
        × (mem d ("build" ∷ "test" ∷ []) ≡ true)
