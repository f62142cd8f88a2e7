-- ===== src/Workflow/CycleDetection/Graph.antt =====
-- The graph of a workflow's steps: the dependencies that are steps, and what an order and a cycle are.
use roboppi.Base.{
  mem, ℕ, String, str_eq, ◌≡◌, refl, true, false, List, [], ◌∷◌, ◌++◌, if◌then◌else◌, arith,
  or_default, ◌<◌, Bool-cases, ap, inl, inr, eq_refl,
}
use roboppi.Base.Dict
use roboppi.Workflow.Types.{Steps, keys, list_of}
use roboppi.Workflow.CycleDetection.{Degrees, Adjacency}
use roboppi.Workflow.CycleDetection.Counting.{occurs, pending, same_mem}

abbrev pub degree : String → Degrees → ℕ
degree x degrees = or_default (Dict.get x degrees) 0

abbrev pub edges : String → Adjacency → List String
edges x adjacency = or_default (Dict.get x adjacency) []

-- The names that are steps.
unfoldable pub known : List String → List String → List String
known ids [] = []
known ids (d ∷ ds) = let rest = known ids ds in if mem d ids then d ∷ rest else rest

-- What the entries of a step depend on.
unfoldable pub deps_of : Steps → String → List String
deps_of [] x = []
deps_of ((id, step) ∷ steps) x =
    let rest = deps_of steps x in if str_eq id x then list_of step.depends_on ++ rest else rest

-- The steps that a step depends on.
abbrev pub steps_before : Steps → String → List String
steps_before steps x = known (keys steps) (deps_of steps x)

-- Newest first: no step occurs twice, and each comes after the steps that it depends on.
abbrev pub IsOrder : Steps → List String → Type 0
IsOrder steps [] = Unit
IsOrder steps (x ∷ done) =
    (mem x done ≡ false)
    × ((d : String) → mem d (steps_before steps x) ≡ true → mem d done ≡ true)
    × IsOrder steps done

-- Steps that all wait for one of them.
abbrev pub IsStuck : Steps → List String → Type 0
IsStuck steps xs =
    (x : String)
    → mem x xs ≡ true
    → (d : String) × (mem d (steps_before steps x) ≡ true) × (mem d xs ≡ true)

-- What is not a step depends on nothing.
pub deps_of_none : (steps : Steps) (x : String) → mem x (keys steps) ≡ false → deps_of steps x ≡ []
unfolding deps_of
deps_of_none [] x h = refl
deps_of_none ((id, step) ∷ steps) x h = elim (Bool-cases (str_eq id x)) [
  | inl e ↦ absurd (ground arith)
  | inr n ↦ rw n (deps_of_none steps x (ground arith))
]

pub steps_before_none :
    (steps : Steps) (x : String) → mem x (keys steps) ≡ false → steps_before steps x ≡ []
unfolding known
steps_before_none steps x h = ap (known (keys steps)) (deps_of_none steps x h)

pub mem-known : (ids ds : List String) (x : String) → mem x (known ids ds) ≡ true → mem x ids ≡ true
unfolding known
mem-known ids [] x h = absurd (ground arith)
mem-known ids (d ∷ ds) x h = ground (arith, same_mem d x ids, mem-known ids ds x)

pub occurs-known :
    (ids ds : List String) (x : String) → mem x ids ≡ true → occurs x (known ids ds) ≡ occurs x ds
unfolding known
occurs-known ids [] x h = refl
occurs-known ids (d ∷ ds) x h = ground (arith, same_mem d x ids, occurs-known ids ds x h)

pub known-append : (ids xs ys : List String) → known ids (xs ++ ys) ≡ known ids xs ++ known ids ys
unfolding known
known-append ids [] ys = refl
known-append ids (x ∷ xs) ys = elim (Bool-cases (mem x ids)) [
  | inl e ↦ rw e (ap (λ zs. x ∷ zs) (known-append ids xs ys))
  | inr e ↦ rw e (known-append ids xs ys)
]

pub none_pending :
    (done xs : List String) (d : String) → pending done xs ≡ 0 → mem d xs ≡ true → mem d done ≡ true
none_pending done [] d h m = absurd (ground arith)
none_pending done (x ∷ xs) d h m = ground (arith, same_mem x d done, none_pending done xs d)

pub some_pending :
    (done xs : List String)
    → 0 < pending done xs
    → (d : String) × (mem d xs ≡ true) × (mem d done ≡ false)
some_pending done [] h = absurd (omega arith)
some_pending done (x ∷ xs) h = elim (Bool-cases (mem x done)) [
  | inl e ↦ let (d, m, n) = some_pending done xs (ground arith) in (d, ground arith, n)
  | inr e ↦ (x, ground (arith, eq_refl x), e)
]
