-- ===== src/Workflow/CycleDetection/Sorting.antt =====
-- The sort of src/workflow/dag-validator.ts: what is done, what waits and what is left.
use roboppi.Base.{
  mem, ℕ, ◌+◌, String, eq_refl, ◌≡◌, ap, sym, ◌∙◌, true, false, List, ◌∷◌, ◌++◌, arith, ◌==◌,
  Bool-cases, inl, inr,
}
use roboppi.Base.Dict
use roboppi.Workflow.Types.{Steps, keys}
use roboppi.Workflow.CycleDetection.{Degrees, Adjacency, relax}
use roboppi.Workflow.CycleDetection.Counting.{
  occurs, pending, covered, Distinct, same_occurs, same_mem, occurs-append, pending-cons,
  covered-cons, occurs-Distinct, occurs_some,
}
use roboppi.Workflow.CycleDetection.Graph.{
  degree, edges, steps_before, steps_before_none, IsOrder, none_pending,
}
use roboppi.Workflow.CycleDetection.Relaxing.{indicator, same_degree, IsRelaxed, relax-IsRelaxed}

-- The loop's state: `done` are the steps that have left the queue, newest first.
pub record IsSorting (steps : Steps) (adjacency : Adjacency) (done queue : List String)
    (visited : ℕ) (degrees : Degrees) : Type 0 where
  pub has : (x : String) → Dict.has x degrees ≡ mem x (keys steps)
  pub adjacent : (c x : String) → occurs x (edges c adjacency) ≡ occurs c (steps_before steps x)
  pub counts : (x : String) → degree x degrees ≡ pending done (steps_before steps x)
  pub queued :
      (x : String)
      → mem x (keys steps) ≡ true
      → occurs x queue + indicator (mem x done) ≡ indicator (degree x degrees == 0)
  pub inside : (x : String) → mem x (keys steps) ≡ false → occurs x queue ≡ 0
  pub number : visited ≡ covered done (keys steps)
  pub order : IsOrder steps done

module _ (steps : Steps) (adjacency : Adjacency) (done queue : List String) (current : String)
    (visited : ℕ) (degrees : Degrees) (distinct : Distinct (keys steps))
    (s : IsSorting steps adjacency done (current ∷ queue) visited degrees) where
  pub is_step : mem current (keys steps) ≡ true
  is_step = ground (arith, s.inside current, eq_refl current)

  pub free : (degree current degrees ≡ 0) × (mem current done ≡ false) × (occurs current queue ≡ 0)
  free = ground (arith, s.queued current is_step, eq_refl current)

  abbrev pub neighbours : List String
  neighbours = edges current adjacency

  neighbours_are_steps : (x : String) → mem x neighbours ≡ true → Dict.has x degrees ≡ true
  neighbours_are_steps x h = elim (Bool-cases (mem x (keys steps))) [
    | inl e ↦ s.has x ∙ e
    | inr e ↦
        let nothing : occurs current (steps_before steps x) ≡ 0 =
          ap (occurs current) (steps_before_none steps x e) in
        absurd (omega (arith, nothing, s.adjacent current x, occurs_some x neighbours h))
  ]

  relaxed : IsRelaxed neighbours degrees (relax neighbours degrees).1 (relax neighbours degrees).0
  relaxed = relax-IsRelaxed neighbours degrees neighbours_are_steps

  pub next-IsSorting :
      IsSorting steps adjacency
        (current ∷ done)
        (queue ++ (relax neighbours degrees).0)
        (visited + 1)
        (relax neighbours degrees).1
  next-IsSorting = record {
    has = λ x. relaxed.has_same x ∙ s.has x;
    adjacent = s.adjacent;
    counts = λ x. ground (
      arith,
      relaxed.degree_less x,
      s.counts x,
      s.adjacent current x,
      pending-cons current done (steps_before steps x) free.1,
    );
    queued = λ x m. ground (
      arith,
      relaxed.degree_less x,
      relaxed.freed_once x,
      s.queued x m,
      occurs-append x queue (relax neighbours degrees).0,
      free,
      same_occurs current x queue,
      same_degree current x degrees,
      same_mem current x done,
    );
    inside = λ x m. ground (
      arith,
      s.inside x m,
      relaxed.freed_once x,
      s.counts x,
      occurs-append x queue (relax neighbours degrees).0,
      ap (pending done) (steps_before_none steps x m),
    );
    number = ground (
      arith,
      s.number,
      covered-cons current done (keys steps) free.1,
      occurs-Distinct current (keys steps) distinct is_step,
    );
    order = (
      free.1,
      (λ d m. none_pending done (steps_before steps current) d (sym (s.counts current) ∙ free.0) m),
      s.order,
    );
  }
