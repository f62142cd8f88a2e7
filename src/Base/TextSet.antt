-- ===== src/Base/TextSet.antt =====
-- A JavaScript `Set` of texts, in the order of insertion.
use Prim.Native.String.{String}
use mathlib.Core.Path.{◌≡◌, refl, ap}
use mathlib.Core.Bool.{Bool, true, false}
use mathlib.Core.List.{List, [], ◌∷◌, ◌++◌}
use native.Mathlib.Omega.{arith}
use text.Mathlib.Text.{◌==◌ as str_eq}
use text.Mathlib.TextEquality.{eq_iff}
use roboppi.Base.Tests.{if◌then◌else◌}

-- `Set.has`, or `Array.includes`.
abbrev pub mem : String → List String → Bool
mem x [] = false
mem x (y ∷ ys) = if str_eq y x then true else mem x ys

-- `Set.add`.
unfoldable pub add : String → List String → List String
add x ys = if mem x ys then ys else ys ++ x ∷ []

abbrev pub Distinct : List String → Type 0
Distinct [] = Unit
Distinct (x ∷ xs) = (mem x xs ≡ false) × Distinct xs

pub same_mem : (x y : String) (xs : List String) → str_eq x y ≡ true → mem x xs ≡ mem y xs
same_mem x y xs e = ap (λ z. mem z xs) ((eq_iff x y).0 e)

pub mem-append :
    (x : String) (xs ys : List String) → mem x (xs ++ ys) ≡ (if mem x xs then true else mem x ys)
mem-append x [] ys = refl
mem-append x (y ∷ xs) ys = ground (arith, mem-append x xs ys)

pub mem-add :
    (x y : String) (xs : List String) → mem x (add y xs) ≡ (if str_eq y x then true else mem x xs)
unfolding add
mem-add x y xs = ground (arith, mem-append x xs (y ∷ []), eq_iff y x)

Distinct-append :
    (x : String) (xs : List String) → mem x xs ≡ false → Distinct xs → Distinct (xs ++ x ∷ [])
Distinct-append x [] h d = (refl, tt)
Distinct-append x (y ∷ xs) h d =
    ground (arith, mem-append y xs (x ∷ []), eq_iff x y, eq_iff y x, Distinct-append x xs)

pub add-Distinct : (x : String) (xs : List String) → Distinct xs → Distinct (add x xs)
unfolding add
add-Distinct x xs d = ground (arith, Distinct-append x xs)
