-- ===== src/Workflow/CycleDetection/Counting.antt =====
-- Members and occurrences in lists of step ids.
use roboppi.Base.{
  mem, ℕ, suc, ◌+◌, ◌≤◌, ◌<◌, String, str_eq, eq_iff, ◌≡◌, refl, ap, true, false, List, [], ◌∷◌,
  ◌++◌, arith, if◌then◌else◌, length,
}
pub use roboppi.Base.TextSet.{Distinct, mem-append, same_mem}

-- How often a name occurs.
abbrev pub occurs : String → List String → ℕ
occurs x [] = 0
occurs x (y ∷ ys) = if str_eq y x then suc (occurs x ys) else occurs x ys

-- How many entries of the second list are not in the first.
abbrev pub pending : List String → List String → ℕ
pending done [] = 0
pending done (x ∷ xs) = if mem x done then pending done xs else suc (pending done xs)

-- How many entries of the second list are in the first.
abbrev pub covered : List String → List String → ℕ
covered done [] = 0
covered done (x ∷ xs) = if mem x done then suc (covered done xs) else covered done xs

pub occurs-append :
    (x : String) (xs ys : List String) → occurs x (xs ++ ys) ≡ occurs x xs + occurs x ys
occurs-append x [] ys = omega arith
occurs-append x (y ∷ xs) ys = ground (arith, occurs-append x xs ys)

pub same_occurs : (x y : String) (xs : List String) → str_eq x y ≡ true → occurs x xs ≡ occurs y xs
same_occurs x y xs e = ap (λ z. occurs z xs) ((eq_iff x y).0 e)

-- A step that is done takes its occurrences away.
pub pending-cons :
    (x : String) (done xs : List String)
    → mem x done ≡ false
    → pending (x ∷ done) xs + occurs x xs ≡ pending done xs
pending-cons x done [] h = omega arith
pending-cons x done (y ∷ xs) h =
    ground (arith, eq_iff x y, eq_iff y x, same_mem x y done, pending-cons x done xs h)

pub covered-cons :
    (x : String) (done xs : List String)
    → mem x done ≡ false
    → covered (x ∷ done) xs ≡ covered done xs + occurs x xs
covered-cons x done [] h = omega arith
covered-cons x done (y ∷ xs) h =
    ground (arith, eq_iff x y, eq_iff y x, same_mem x y done, covered-cons x done xs h)

pub occurs_none : (x : String) (xs : List String) → mem x xs ≡ false → occurs x xs ≡ 0
occurs_none x [] h = refl
occurs_none x (y ∷ xs) h = ground (arith, occurs_none x xs)

pub occurs_some : (x : String) (xs : List String) → mem x xs ≡ true → 0 < occurs x xs
occurs_some x [] h = absurd (ground arith)
occurs_some x (y ∷ xs) h = ground (arith, occurs_some x xs)

pub occurs-Distinct :
    (x : String) (xs : List String) → Distinct xs → mem x xs ≡ true → occurs x xs ≡ 1
occurs-Distinct x [] d h = absurd (ground arith)
occurs-Distinct x (y ∷ xs) d h =
    ground (arith, same_mem y x xs, d.0, occurs-Distinct x xs d.1, occurs_none x xs)

pub covered_le : (done xs : List String) → covered done xs ≤ length xs
covered_le done [] = omega arith
covered_le done (x ∷ xs) = ground (arith, covered_le done xs)

-- If not all are covered, one is missing, and if one is missing, not all are covered.
pub covered_all :
    (x : String) (done xs : List String)
    → covered done xs ≡ length xs
    → mem x xs ≡ true
    → mem x done ≡ true
covered_all x done [] h m = absurd (ground arith)
covered_all x done (y ∷ xs) h m =
    ground (arith, same_mem y x done, covered_le done xs, covered_all x done xs)
