-- ===== src/Workflow/CycleDetection/Verdict.antt =====
-- What src/workflow/dag-validator.ts concludes from the sort.
use roboppi.Base.{
  mem, ℕ, zero, suc, ◌+◌, ◌<◌, String, str_eq, eq_refl, ◌≡◌, refl, ◌≢◌, ap, sym, ◌∙◌, ◌⊎◌, true,
  false, ◌&&◌, List, [], ◌∷◌, ◌++◌, arith, ltb, ◌==◌, or_default, length, Bool-cases, inl, inr,
}
use roboppi.Base.Dict.{Unique, get-set}
use roboppi.Base.Dict
use roboppi.Workflow.Types.{Steps, keys}
use roboppi.Workflow.CycleDetection.{
  Degrees, Adjacency, no_edges, build, cycle_error, roots, relax, sort, in_cycle, verdict,
  detect_cycles,
}
use roboppi.Workflow.CycleDetection.Counting.{
  pending, covered, Distinct, same_mem, covered_le, covered_all,
}
use roboppi.Workflow.CycleDetection.Graph.{
  degree, deps_of, steps_before, steps_before_none, IsOrder, IsStuck, mem-known, some_pending,
}
use roboppi.Workflow.CycleDetection.Relaxing.{indicator, same_degree}
use roboppi.Workflow.CycleDetection.Adding.{Graph}
use roboppi.Workflow.CycleDetection.Building.{build-IsGraph}
use roboppi.Workflow.CycleDetection.Starting.{build-Unique, no_edges-Unique, start-IsSorting}
use roboppi.Workflow.CycleDetection.Sorting.{IsSorting, next-IsSorting, free, is_step}

-- The end of the sort: a step is done exactly if its degree is 0.
record IsFinished (steps : Steps) (result : ℕ × Degrees) : Type 0 where
  done : List String
  counts : (x : String) → degree x result.1 ≡ pending done (steps_before steps x)
  finished :
      (x : String)
      → mem x (keys steps) ≡ true
      → indicator (mem x done) ≡ indicator (degree x result.1 == 0)
  number : result.0 ≡ covered done (keys steps)
  order : IsOrder steps done

module _ (steps : Steps) (adjacency : Adjacency) (distinct : Distinct (keys steps)) where
  end-IsFinished :
      (done : List String) (visited : ℕ) (degrees : Degrees)
      → IsSorting steps adjacency done [] visited degrees
      → IsFinished steps (visited, degrees)
  end-IsFinished done visited degrees s = record {
    done = done;
    counts = s.counts;
    finished = λ x m. ground (arith, s.queued x m);
    number = s.number;
    order = s.order;
  }

  sort-IsFinished :
      (rounds : ℕ) (done queue : List String) (visited : ℕ) (degrees : Degrees)
      → rounds + visited ≡ length (keys steps)
      → IsSorting steps adjacency done queue visited degrees
      → IsFinished steps (sort rounds adjacency queue visited degrees)
  unfolding sort
  sort-IsFinished zero done [] visited degrees h s = end-IsFinished done visited degrees s
  sort-IsFinished zero done (current ∷ queue) visited degrees h s =
      let here = is_step steps adjacency done queue current visited degrees distinct s in
      let (no_edge, not_done, once) =
        free steps adjacency done queue current visited degrees distinct s in
      absurd (
        ground
          (arith, not_done, covered_all current done (keys steps) (omega (arith, s.number)) here))
  sort-IsFinished (suc rounds) done [] visited degrees h s = end-IsFinished done visited degrees s
  sort-IsFinished (suc rounds) done (current ∷ queue) visited degrees h s =
      let (freed, after) = relax (or_default (Dict.get current adjacency) []) degrees in
      sort-IsFinished rounds (current ∷ done) (queue ++ freed) (visited + 1) after (omega arith)
        (next-IsSorting steps adjacency done queue current visited degrees distinct s)

-- The steps that are not done at the end wait for one another.
mem-in_cycle :
    (ids : List String) (degrees : Degrees) (x : String)
    → mem x (in_cycle ids degrees) ≡ (mem x ids && ltb 0 (degree x degrees))
unfolding in_cycle
mem-in_cycle [] degrees x = refl
mem-in_cycle (id ∷ ids) degrees x =
    ground (arith, same_degree id x degrees, mem-in_cycle ids degrees x)

missing :
    (done ids : List String)
    → covered done ids < length ids
    → (x : String) × (mem x ids ≡ true) × (mem x done ≡ false)
missing done [] h = absurd (omega arith)
missing done (x ∷ ids) h = elim (Bool-cases (mem x done)) [
  | inl e ↦ let (y, m, n) = missing done ids (ground arith) in (y, ground arith, n)
  | inr e ↦ (x, ground (arith, eq_refl x), e)
]

-- Either the sort is complete, or some steps are left.
pub record IsComplete (steps : Steps) (order : List String) : Type 0 where
  pub ordered : IsOrder steps order
  pub complete : (x : String) → mem x (keys steps) ≡ true → mem x order ≡ true

pub record IsCycle (steps : Steps) (xs : List String) : Type 0 where
  pub stuck : IsStuck steps xs
  pub member : String
  pub is_member : mem member xs ≡ true

module _ (steps : Steps) (result : ℕ × Degrees) (f : IsFinished steps result) where
  left_over :
      (x : String)
      → mem x (keys steps) ≡ true
      → mem x f.done ≡ false
      → mem x (in_cycle (keys steps) result.1) ≡ true
  left_over x m n = ground (arith, mem-in_cycle (keys steps) result.1 x, f.finished x m)

  in_cycle-IsStuck : IsStuck steps (in_cycle (keys steps) result.1)
  in_cycle-IsStuck x m =
      let waits : 0 < pending f.done (steps_before steps x) =
        ground (arith, mem-in_cycle (keys steps) result.1 x, f.counts x) in
      let (d, before, undone) = some_pending f.done (steps_before steps x) waits in
      (d, before, left_over d (mem-known (keys steps) (deps_of steps x) d before) undone)

  verdict_lem :
      ((verdict (keys steps) result ≡ []) × (order : List String) × IsComplete steps order)
      ⊎ (xs : List String) × (verdict (keys steps) result ≡ cycle_error xs ∷ []) × IsCycle steps xs
  unfolding verdict
  verdict_lem = elim (Bool-cases (ltb result.0 (length (keys steps)))) [
    | inl few ↦
        let (x, m, n) = missing f.done (keys steps) (ground (arith, f.number)) in
        inr (
          in_cycle (keys steps) result.1,
          rw few refl,
          record { stuck = in_cycle-IsStuck; member = x; is_member = left_over x m n },
        )
    | inr all ↦ inl (
      rw all refl,
      f.done,
      record {
        ordered = f.order;
        complete = λ x m.
            covered_all x f.done (keys steps)
              (ground (arith, f.number, covered_le f.done (keys steps))) m;
      },
    )
  ]

-- The sort answers without an error if the steps have an order in which each comes after those that it
-- depends on, and else with one error that names steps, at least one, each of which depends on one of
-- them. It always ends with one of the two answers, if no step is listed twice.
pub detect_cycles_lem :
    (steps : Steps)
    → Distinct (keys steps)
    → ((detect_cycles steps ≡ []) × (order : List String) × IsComplete steps order)
      ⊎ (xs : List String) × (detect_cycles steps ≡ cycle_error xs ∷ []) × IsCycle steps xs
unfolding detect_cycles
detect_cycles_lem steps distinct =
    verdict_lem steps (sort (length (keys steps)) g.1 (roots g.0) 0 g.0) (
      sort-IsFinished steps g.1 distinct (length (keys steps)) [] (roots g.0) 0 g.0 (omega arith)
        (start-IsSorting steps g (build-IsGraph steps) unique))
  where
    g : Graph
    g = build steps (no_edges (keys steps) ([], []))

    unique : Unique g.0
    unique =
        build-Unique steps (no_edges (keys steps) ([], []))
          (no_edges-Unique (keys steps) ([], []) tt)

pub not_stuck :
    (steps : Steps) (order xs : List String) (x : String)
    → IsOrder steps order
    → IsStuck steps xs
    → mem x order ≡ true
    → mem x xs ≡ true
    → ⊥
not_stuck steps [] xs x o s m n = ground arith
not_stuck steps (y ∷ done) xs x o s m n = elim (Bool-cases (str_eq y x)) [
  | inl e ↦
      let (d, before, there) = s y (ground (arith, same_mem y x xs)) in
      not_stuck steps done xs d o.2 s (o.1 d before) there
  | inr ne ↦ not_stuck steps done xs x o.2 s (ground arith) n
]

pub stuck_step :
    (steps : Steps) (xs : List String) (x : String)
    → IsStuck steps xs
    → mem x xs ≡ true
    → mem x (keys steps) ≡ true
stuck_step steps xs x s m = elim (Bool-cases (mem x (keys steps))) [
  | inl i ↦ i
  | inr i ↦
      let (d, before, there) = s x m in
      let nothing : mem d (steps_before steps x) ≡ false =
        ap (mem d) (steps_before_none steps x i) in
      ground (arith, nothing, before)
]

-- If some steps each depend on one of them, such as the steps of a cycle, the sort reports an error.
detect_cycles-IsStuck :
    (steps : Steps) (xs : List String) (x : String)
    → Distinct (keys steps)
    → IsStuck steps xs
    → mem x xs ≡ true
    → detect_cycles steps ≢ []
detect_cycles-IsStuck steps xs x distinct s m none_found = elim (detect_cycles_lem steps distinct) [
  | inl (e, order, c) ↦
      not_stuck steps order xs x c.ordered s (c.complete x (stuck_step steps xs x s m)) m
  | inr (ys, e, c) ↦ omega (arith, ap (λ l. length l) (sym none_found ∙ e))
]
