-- ===== src/Workflow/CycleDetection/Starting.antt =====
-- The state in which the sort of src/workflow/dag-validator.ts starts.
use roboppi.Base.{
  suc, ◌+◌, String, ◌≡◌, refl, ap, sym, ◌∙◌, ◌&&◌, List, [], ◌∷◌, arith, ◌==◌, length, Bool-cases,
  inl, inr,
}
use roboppi.Base.Dict.{Unique, get-set}
use roboppi.Base.Dict
use roboppi.Base.Dict.Sums.{set-Unique}
use roboppi.Workflow.Types.{Steps, keys, list_of}
use roboppi.Workflow.CycleDetection.{Degrees, no_edges, add_edge, add_edges, build, roots}
use roboppi.Workflow.CycleDetection.Counting.{occurs, pending, covered}
use roboppi.Workflow.CycleDetection.Graph.{degree, steps_before}
use roboppi.Workflow.CycleDetection.Relaxing.{indicator, same_get}
use roboppi.Workflow.CycleDetection.Adding.{Graph}
use roboppi.Workflow.CycleDetection.Building.{IsGraph}
use roboppi.Workflow.CycleDetection.Sorting.{IsSorting}

occurs-roots :
    (m : Degrees) (x : String)
    → Unique m
    → occurs x (roots m) ≡ indicator (Dict.has x m && (degree x m == 0))
unfolding roots Dict.has Dict.get
occurs-roots [] x u = refl
occurs-roots ((id, d) ∷ m) x u = ground (arith, u.0, same_get id x m, occurs-roots m x u.1)

add_edge-Unique : (step dep : String) (m : Graph) → Unique m.0 → Unique (add_edge step dep m).0
unfolding add_edge
add_edge-Unique step dep m u = elim (Bool-cases (Dict.has dep m.0)) [
  | inl e ↦ rw e (set-Unique step (degree step m.0 + 1) m.0 u)
  | inr n ↦ rw n u
]

add_edges-Unique :
    (step : String) (deps : List String) (m : Graph) → Unique m.0 → Unique (add_edges step deps m).0
unfolding add_edges
add_edges-Unique step [] m u = u
add_edges-Unique step (dep ∷ deps) m u =
    add_edges-Unique step deps (add_edge step dep m) (add_edge-Unique step dep m u)

pub build-Unique : (steps : Steps) (m : Graph) → Unique m.0 → Unique (build steps m).0
unfolding build
build-Unique [] m u = u
build-Unique ((id, step) ∷ steps) m u =
    build-Unique steps (add_edges id (list_of step.depends_on) m)
      (add_edges-Unique id (list_of step.depends_on) m u)

pub no_edges-Unique : (ids : List String) (m : Graph) → Unique m.0 → Unique (no_edges ids m).0
unfolding no_edges
no_edges-Unique [] m u = u
no_edges-Unique (id ∷ ids) m u =
    no_edges-Unique ids (Dict.set id 0 m.0, Dict.set id [] m.1) (set-Unique id 0 m.0 u)

pending_nil : (xs : List String) → pending [] xs ≡ length xs
pending_nil [] = refl
pending_nil (x ∷ xs) = ap suc (pending_nil xs)

covered_nil : (xs : List String) → covered [] xs ≡ 0
covered_nil [] = refl
covered_nil (x ∷ xs) = covered_nil xs

pub start-IsSorting :
    (steps : Steps) (g : Graph)
    → IsGraph steps g
    → Unique g.0
    → IsSorting steps g.1 [] (roots g.0) 0 g.0
start-IsSorting steps g h u = record {
  has = h.has;
  adjacent = h.adjacent;
  counts = λ x. h.degrees x ∙ sym (pending_nil (steps_before steps x));
  queued = λ x m. ground (arith, occurs-roots g.0 x u, h.has x, m);
  inside = λ x m. ground (arith, occurs-roots g.0 x u, h.has x, m);
  number = sym (covered_nil (keys steps));
  order = tt;
}
