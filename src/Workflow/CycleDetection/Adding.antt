-- ===== src/Workflow/CycleDetection/Adding.antt =====
-- The edges that src/workflow/dag-validator.ts adds for one step.
use roboppi.Base.{
  mem, ℕ, ◌+◌, String, str_eq, eq_iff, ◌≡◌, refl, ap, ◌∙◌, true, some, List, [], ◌∷◌, ◌++◌, arith,
  if◌then◌else◌, or_default, length, Bool-cases, inl, inr,
}
use roboppi.Base.Dict.{get-set}
use roboppi.Base.Dict
use roboppi.Workflow.CycleDetection.{Degrees, Adjacency, add_edge, add_edges}
use roboppi.Workflow.CycleDetection.Counting.{occurs, occurs-append}
use roboppi.Workflow.CycleDetection.Graph.{degree, edges, known}
use roboppi.Workflow.CycleDetection.Relaxing.{indicator, same_degree, same_get}

abbrev pub Graph : Type 0
Graph = Degrees × Adjacency

same_edges : (x y : String) (m : Adjacency) → str_eq x y ≡ true → edges x m ≡ edges y m
same_edges x y m e = ap (λ z. edges z m) ((eq_iff x y).0 e)

-- The edges that one graph has over another: those of a step to the steps it depends on.
pub record Adds (ids : List String) (step : String) (deps : List String) (before after : Graph)
    : Type 0 where
  pub has_same : (x : String) → Dict.has x after.0 ≡ Dict.has x before.0
  pub degree_more :
      (x : String)
      → degree x after.0
        ≡ degree x before.0 + (if str_eq step x then length (known ids deps) else 0)
  pub edges_more :
      (c x : String)
      → occurs x (edges c after.1)
        ≡ occurs x (edges c before.1) + (if str_eq step x then occurs c (known ids deps) else 0)

degree-set :
    (step x : String) (m : Degrees)
    → degree x (Dict.set step (degree step m + 1) m) ≡ degree x m + indicator (str_eq step x)
degree-set step x m = ground (arith, get-set step x (degree step m + 1) m, same_degree step x m)

occurs-set :
    (step dep c x : String) (m : Adjacency)
    → occurs x (edges c (Dict.set dep (edges dep m ++ step ∷ []) m))
      ≡ occurs x (edges c m) + (if str_eq step x then indicator (str_eq dep c) else 0)
occurs-set step dep c x m = elim (Bool-cases (str_eq dep c)) [
  | inl e ↦
      let there : edges c (Dict.set dep (edges dep m ++ step ∷ []) m) ≡ edges c m ++ step ∷ [] =
        ap (λ o. or_default o [])
          (get-set dep c (edges dep m ++ step ∷ []) m
            ∙ ap (λ b. if b then some (edges dep m ++ step ∷ []) else Dict.get c m) e)
        ∙ ap (λ xs. xs ++ step ∷ []) (same_edges dep c m e) in
      rw (there, e) (ground (arith, occurs-append x (edges c m) (step ∷ [])))
  | inr n ↦
      let there : edges c (Dict.set dep (edges dep m ++ step ∷ []) m) ≡ edges c m =
        ap (λ o. or_default o [])
          (get-set dep c (edges dep m ++ step ∷ []) m
            ∙ ap (λ b. if b then some (edges dep m ++ step ∷ []) else Dict.get c m) n) in
      rw (there, n) (ground arith)
]

has-set_there :
    (k x : String) (v : ℕ) (m : Degrees)
    → Dict.has k m ≡ true
    → Dict.has x (Dict.set k v m) ≡ Dict.has x m
unfolding Dict.has
has-set_there k x v m h = ground (arith, get-set k x v m, same_get k x m)

module _ (ids : List String) (step : String) (is_step : mem step ids ≡ true) where
  add_edge-Adds :
      (dep : String) (m : Graph)
      → ((x : String) → Dict.has x m.0 ≡ mem x ids)
      → Adds ids step (dep ∷ []) m (add_edge step dep m)
  unfolding add_edge known
  add_edge-Adds dep m h = elim (Bool-cases (mem dep ids)) [
    | inl e ↦ rw (h dep ∙ e) (record {
      has_same = λ x. has-set_there step x (degree step m.0 + 1) m.0 (h step ∙ is_step);
      degree_more = λ x. ground (arith, degree-set step x m.0, e);
      edges_more = λ c x. ground (arith, occurs-set step dep c x m.1, e);
    })
    | inr n ↦ rw (h dep ∙ n) (record {
      has_same = λ x. refl;
      degree_more = λ x. ground (arith, n);
      edges_more = λ c x. ground (arith, n);
    })
  ]

  pub add_edges-Adds :
      (deps : List String) (m : Graph)
      → ((x : String) → Dict.has x m.0 ≡ mem x ids)
      → Adds ids step deps m (add_edges step deps m)
  unfolding add_edges known
  add_edges-Adds [] m h = record {
    has_same = λ x. refl;
    degree_more = λ x. ground arith;
    edges_more = λ c x. ground arith;
  }
  add_edges-Adds (dep ∷ deps) m h =
      let one = add_edge-Adds dep m h in
      let rest = add_edges-Adds deps (add_edge step dep m) (λ x. one.has_same x ∙ h x) in
      record {
        has_same = λ x. rest.has_same x ∙ one.has_same x;
        degree_more = λ x. ground (arith, rest.degree_more x, one.degree_more x);
        edges_more = λ c x. ground (arith, rest.edges_more c x, one.edges_more c x);
      }
