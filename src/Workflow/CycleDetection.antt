-- ===== src/Workflow/CycleDetection.antt =====
-- src/workflow/dag-validator.ts, detectCycles. Degrees are natural: the source may count below 0, but
-- no code tells that from 0.
pub mod Counting
pub mod Graph
pub mod Relaxing
pub mod Adding
pub mod Building
pub mod Sorting
pub mod Starting
pub mod Verdict
mod Examples
use roboppi.Base.{
  ℕ, zero, suc, ◌+◌, ◌-◌, String, Option, none, some, List, [], ◌∷◌, ◌++◌, ltb, ◌==◌, if◌then◌else◌,
  length, or_default,
}
use roboppi.Base.Dict.{Dict}
use roboppi.Base.Dict
use roboppi.Workflow.Types.{StepDefinition, Steps, keys, list_of, ValidationError, cycle_of}

abbrev pub Degrees : Type 0
Degrees = Dict ℕ

abbrev pub Adjacency : Type 0
Adjacency = Dict (List String)

unfoldable pub no_edges : List String → Degrees × Adjacency → Degrees × Adjacency
no_edges [] m = m
no_edges (id ∷ ids) (degrees, adjacency) =
    no_edges ids (Dict.set id 0 degrees, Dict.set id [] adjacency)

unfoldable pub add_edge : String → String → Degrees × Adjacency → Degrees × Adjacency
add_edge step dep (degrees, adjacency) =
    if Dict.has dep degrees
    then (
      Dict.set step (or_default (Dict.get step degrees) 0 + 1) degrees,
      Dict.set dep (or_default (Dict.get dep adjacency) [] ++ step ∷ []) adjacency,
    )
    else (degrees, adjacency)

unfoldable pub add_edges : String → List String → Degrees × Adjacency → Degrees × Adjacency
add_edges step [] m = m
add_edges step (dep ∷ deps) m = add_edges step deps (add_edge step dep m)

unfoldable pub build : Steps → Degrees × Adjacency → Degrees × Adjacency
build [] m = m
build ((id, step) ∷ steps) m = build steps (add_edges id (list_of step.depends_on) m)

unfoldable pub roots : Degrees → List String
roots [] = []
roots ((id, degree) ∷ degrees) = let rest = roots degrees in if degree == 0 then id ∷ rest else rest

-- The neighbours of a step lose an edge; the first result are those that lose their last.
unfoldable pub relax : List String → Degrees → List String × Degrees
relax [] degrees = ([], degrees)
relax (n ∷ ns) degrees =
    let degree = or_default (Dict.get n degrees) 1 in
    let (freed, after) = relax ns (Dict.set n (degree - 1) degrees) in
    ((if degree == 1 then n ∷ freed else freed), after)

-- The loop of the sort. Each step enters the queue once, so a round for each step is enough.
unfoldable pub sort : ℕ → Adjacency → List String → ℕ → Degrees → ℕ × Degrees
sort zero adjacency queue visited degrees = (visited, degrees)
sort (suc rounds) adjacency [] visited degrees = (visited, degrees)
sort (suc rounds) adjacency (current ∷ queue) visited degrees =
    let (freed, after) = relax (or_default (Dict.get current adjacency) []) degrees in
    sort rounds adjacency (queue ++ freed) (visited + 1) after

unfoldable pub in_cycle : List String → Degrees → List String
in_cycle [] degrees = []
in_cycle (id ∷ ids) degrees =
    let rest = in_cycle ids degrees in
    if ltb 0 (or_default (Dict.get id degrees) 0) then id ∷ rest else rest

abbrev pub cycle_error : List String → ValidationError
cycle_error ids = record { step_id = none; field = "depends_on"; message = cycle_of ids }

unfoldable pub verdict : List String → ℕ × Degrees → List ValidationError
verdict ids (visited, degrees) =
    if ltb visited (length ids) then cycle_error (in_cycle ids degrees) ∷ [] else []

unfoldable pub detect_cycles : Steps → List ValidationError
detect_cycles steps =
    let ids = keys steps in
    let (degrees, adjacency) = build steps (no_edges ids ([], [])) in
    verdict ids (sort (length ids) adjacency (roots degrees) 0 degrees)
