-- ===== src/Workflow/CycleDetection/Building.antt =====
-- The degrees and the neighbours that src/workflow/dag-validator.ts counts are those of the graph.
use roboppi.Base.{
  mem, ◌+◌, String, str_eq, eq_refl, ◌≡◌, refl, ap, ◌∙◌, true, List, [], ◌∷◌, ◌++◌, arith,
  if◌then◌else◌, length, length-append, Bool-cases, inl, inr,
}
use roboppi.Base.Dict.{get-set}
use roboppi.Base.Dict
use roboppi.Workflow.Types.{Steps, keys, list_of}
use roboppi.Workflow.CycleDetection.{no_edges, add_edges, build}
use roboppi.Workflow.CycleDetection.Counting.{occurs, occurs-append}
use roboppi.Workflow.CycleDetection.Graph.{
  degree, edges, known, deps_of, steps_before, known-append,
}
use roboppi.Workflow.CycleDetection.Adding.{Graph, add_edges-Adds}

-- The same for the edges of all steps.
record AddsAll (ids : List String) (steps : Steps) (before after : Graph) : Type 0 where
  has_same : (x : String) → Dict.has x after.0 ≡ Dict.has x before.0
  degree_more :
      (x : String) → degree x after.0 ≡ degree x before.0 + length (known ids (deps_of steps x))
  edges_more :
      (c x : String)
      → occurs x (edges c after.1)
        ≡ occurs x (edges c before.1) + occurs c (known ids (deps_of steps x))

length_more :
    (ids xs ys : List String)
    → length (known ids (xs ++ ys)) ≡ length (known ids xs) + length (known ids ys)
length_more ids xs ys = rw (known-append ids xs ys) (length-append (known ids xs) (known ids ys))

occurs_more :
    (ids xs ys : List String) (c : String)
    → occurs c (known ids (xs ++ ys)) ≡ occurs c (known ids xs) + occurs c (known ids ys)
occurs_more ids xs ys c =
    rw (known-append ids xs ys) (occurs-append c (known ids xs) (known ids ys))

build-AddsAll :
    (ids : List String) (steps : Steps) (m : Graph)
    → ((x : String) → mem x (keys steps) ≡ true → mem x ids ≡ true)
    → ((x : String) → Dict.has x m.0 ≡ mem x ids)
    → AddsAll ids steps m (build steps m)
unfolding build deps_of known
build-AddsAll ids [] m k h = record {
  has_same = λ x. refl;
  degree_more = λ x. omega arith;
  edges_more = λ c x. omega arith;
}
build-AddsAll ids ((id, step) ∷ steps) m k h =
    let deps = list_of step.depends_on in
    let one = add_edges-Adds ids id (k id (ground (arith, eq_refl id))) deps m h in
    let rest =
      build-AddsAll ids steps (add_edges id deps m) (λ x e. k x (ground arith))
        (λ x. one.has_same x ∙ h x) in
    record {
      has_same = λ x. rest.has_same x ∙ one.has_same x;
      degree_more = λ x. elim (Bool-cases (str_eq id x)) [
        | inl e ↦ rw e (
            ground (
              arith,
              rest.degree_more x,
              one.degree_more x,
              e,
              length_more ids deps (deps_of steps x),
            ))
        | inr n ↦ rw n (ground (arith, rest.degree_more x, one.degree_more x, n))
      ];
      edges_more = λ c x. elim (Bool-cases (str_eq id x)) [
        | inl e ↦ rw e (
            ground (
              arith,
              rest.edges_more c x,
              one.edges_more c x,
              e,
              occurs_more ids deps (deps_of steps x) c,
            ))
        | inr n ↦ rw n (ground (arith, rest.edges_more c x, one.edges_more c x, n))
      ];
    }

no_edges-has :
    (ids : List String) (m : Graph) (x : String)
    → Dict.has x (no_edges ids m).0 ≡ (if mem x ids then true else Dict.has x m.0)
unfolding no_edges Dict.has
no_edges-has [] m x = refl
no_edges-has (id ∷ ids) m x =
    ground (arith, no_edges-has ids (Dict.set id 0 m.0, Dict.set id [] m.1) x, get-set id x 0 m.0)

no_edges-degree :
    (ids : List String) (m : Graph) (x : String)
    → degree x m.0 ≡ 0
    → degree x (no_edges ids m).0 ≡ 0
unfolding no_edges
no_edges-degree [] m x h = h
no_edges-degree (id ∷ ids) m x h =
    no_edges-degree ids (Dict.set id 0 m.0, Dict.set id [] m.1) x
      (ground (arith, get-set id x 0 m.0))

no_edges-edges :
    (ids : List String) (m : Graph) (x : String)
    → edges x m.1 ≡ []
    → edges x (no_edges ids m).1 ≡ []
unfolding no_edges
no_edges-edges [] m x h = h
no_edges-edges (id ∷ ids) m x h =
    no_edges-edges ids (Dict.set id 0 m.0, Dict.set id [] m.1) x
      (ground (arith, get-set id x [] m.1))

-- The graph that the source builds.
pub record IsGraph (steps : Steps) (g : Graph) : Type 0 where
  pub has : (x : String) → Dict.has x g.0 ≡ mem x (keys steps)
  pub degrees : (x : String) → degree x g.0 ≡ length (steps_before steps x)
  pub adjacent : (c x : String) → occurs x (edges c g.1) ≡ occurs c (steps_before steps x)

pub build-IsGraph : (steps : Steps) → IsGraph steps (build steps (no_edges (keys steps) ([], [])))
unfolding Dict.get Dict.has
build-IsGraph steps = record {
  has = λ x. all.has_same x ∙ empty x;
  degrees = λ x. ground (arith, all.degree_more x, no_edges-degree (keys steps) ([], []) x refl);
  adjacent = λ c x. ground (arith, all.edges_more c x, unconnected c x);
}
  where
    empty : (x : String) → Dict.has x (no_edges (keys steps) ([], [])).0 ≡ mem x (keys steps)
    empty x = ground (arith, no_edges-has (keys steps) ([], []) x)

    unconnected : (c x : String) → occurs x (edges c (no_edges (keys steps) ([], [])).1) ≡ 0
    unconnected c x = ap (λ xs. occurs x xs) (no_edges-edges (keys steps) ([], []) c refl)

    all :
        AddsAll
          (keys steps)
          steps
          (no_edges (keys steps) ([], []))
          (build steps (no_edges (keys steps) ([], [])))
    all = build-AddsAll (keys steps) steps (no_edges (keys steps) ([], [])) (λ x e. e) empty
