-- ===== src/Workflow/DagValidator/Names.antt =====
-- Lists of errors that are empty, and lists of names that are distinct, in src/workflow/dag-validator.ts.
use roboppi.Base.{
  mem, String, eq_refl, ◌≡◌, refl, ap, sym, Bool, true, false, not, List, [], ◌∷◌, ◌++◌, arith,
  length,
}
use roboppi.Workflow.Types.{ValidationError}
use roboppi.Workflow.CycleDetection.Counting.{Distinct, same_mem}
use roboppi.Workflow.DagValidator.{unless}

pub append_nil : {A : Type 0} (xs ys : List A) → xs ++ ys ≡ [] → (xs ≡ []) × (ys ≡ [])
append_nil [] ys h = (refl, h)
append_nil (x ∷ xs) ys h = absurd (omega (arith, ap (λ l. length l) h))

pub unless_nil : (b : Bool) (e : ValidationError) → unless b e ≡ [] → b ≡ true
unless_nil true e h = refl
unless_nil false e h = absurd (omega (arith, ap (λ l. length l) h))

pub nil_append : {A : Type 0} (xs ys : List A) → xs ≡ [] → ys ≡ [] → xs ++ ys ≡ []
nil_append [] ys h k = k
nil_append (x ∷ xs) ys h k = absurd (omega (arith, ap (λ l. length l) h))

pub nil_unless : (b : Bool) (e : ValidationError) → b ≡ true → unless b e ≡ []
nil_unless true e h = refl
nil_unless false e h = absurd (ground arith)

pub not-true : (b : Bool) → not b ≡ true → b ≡ false
not-true true h = sym h
not-true false h = refl

-- Names that are new when they are met, one after the other, after those seen.
abbrev pub Fresh : List String → List String → Type 0
Fresh seen [] = Unit
Fresh seen (x ∷ xs) = (mem x seen ≡ false) × Fresh (x ∷ seen) xs

Fresh-not_in :
    (seen xs : List String) (y : String) → Fresh seen xs → mem y seen ≡ true → mem y xs ≡ false
Fresh-not_in seen [] y f h = refl
Fresh-not_in seen (x ∷ xs) y f h =
    ground (arith, same_mem x y seen, f.0, Fresh-not_in (x ∷ seen) xs y f.1)

pub Fresh-Distinct : (seen xs : List String) → Fresh seen xs → Distinct xs
Fresh-Distinct seen [] f = tt
Fresh-Distinct seen (x ∷ xs) f =
    (Fresh-not_in (x ∷ seen) xs x f.1 (ground (arith, eq_refl x)), Fresh-Distinct (x ∷ seen) xs f.1)

pub Distinct-Fresh :
    (seen xs : List String)
    → Distinct xs
    → ((y : String) → mem y xs ≡ true → mem y seen ≡ false)
    → Fresh seen xs
Distinct-Fresh seen [] d h = tt
Distinct-Fresh seen (x ∷ xs) d h = (
  h x (ground (arith, eq_refl x)),
  Distinct-Fresh (x ∷ seen) xs d.1 (λ y m. ground (arith, h y, same_mem x y xs, d.0)),
)
