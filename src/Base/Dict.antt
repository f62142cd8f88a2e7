-- ===== src/Base/Dict.antt =====
-- A JavaScript `Map` with text keys: the entries in the order of their insertion.
pub mod Sums
use Prim.Native.Nat.{ℕ, suc, ◌+◌}
use Prim.Native.String.{String}
use mathlib.Core.Path.{◌≡◌, refl}
use mathlib.Core.Bool.{Bool, true, false}
use mathlib.Core.Option.{Option, none, some}
use mathlib.Core.List.{List, [], ◌∷◌}
use native.Mathlib.Omega.{arith}
use text.Mathlib.Text.{◌==◌ as str_eq}
use text.Mathlib.TextEquality.{eq_iff}
use roboppi.Base.Tests.{if◌then◌else◌}

abbrev pub Dict {ℓ} : Type ℓ → Type ℓ
Dict V = List (String × V)

module _ {ℓ} {V : Type ℓ} where
  unfoldable pub get : String → Dict V → Option V
  get k [] = none
  get k ((j, v) ∷ m) = if str_eq j k then some v else get k m

  abbrev pub is_some : Option V → Bool
  is_some none = false
  is_some (some _) = true

  unfoldable pub has : String → Dict V → Bool
  unfolding get
  has k m = is_some (get k m)

  -- `Map.set` keeps the place of a key that is there, and appends one that is new.
  unfoldable pub set : String → V → Dict V → Dict V
  set k v [] = (k, v) ∷ []
  set k v ((j, w) ∷ m) = if str_eq j k then (j, v) ∷ m else (j, w) ∷ set k v m

  unfoldable pub delete : String → Dict V → Dict V
  delete k [] = []
  delete k ((j, v) ∷ m) = let rest = delete k m in if str_eq j k then rest else (j, v) ∷ rest

  abbrev pub size : Dict V → ℕ
  size [] = 0
  size (_ ∷ m) = suc (size m)

  -- A `Map` holds a key once.
  abbrev pub Unique : Dict V → Type ℓ
  Unique [] = Unit
  Unique ((k, _) ∷ m) = (get k m ≡ none) × Unique m

  -- What the entries add up to under a weight.
  abbrev pub total : (V → ℕ) → Dict V → ℕ
  total w [] = 0
  total w ((_, v) ∷ m) = w v + total w m

  pub get-set :
      (k j : String) (v : V) (m : Dict V)
      → get j (set k v m) ≡ (if str_eq k j then some v else get j m)
  unfolding get set
  get-set k j v [] = refl
  get-set k j v ((i, w) ∷ m) = ground (arith, eq_iff k j, eq_iff i k, eq_iff i j, get-set k j v m)

  pub get-delete :
      (k j : String) (m : Dict V) → get j (delete k m) ≡ (if str_eq k j then none else get j m)
  unfolding get delete
  get-delete k j [] = ground arith
  get-delete k j ((i, w) ∷ m) = ground (arith, eq_iff k j, eq_iff i k, eq_iff i j, get-delete k j m)
