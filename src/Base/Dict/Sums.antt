-- ===== src/Base/Dict/Sums.antt =====
-- How many entries a dictionary has, and what they add up to, after a change.
use Prim.Native.Nat.{ℕ, suc, ◌+◌}
use Prim.Native.String.{String}
use mathlib.Core.Path.{◌≡◌, refl}
use mathlib.Core.Logic.{inl, inr}
use mathlib.Core.Option.{none, some}
use mathlib.Core.List.{[], ◌∷◌}
use native.Mathlib.Omega.{arith}
use text.Mathlib.Text.{◌==◌ as str_eq}
use text.Mathlib.TextEquality.{eq_iff}
use roboppi.Base.Tests.{Bool-cases}
use roboppi.Base.Dict.{Dict, get, set, delete, size, Unique, total, get-set, get-delete}

module _ {ℓ} {V : Type ℓ} where
  pub set-Unique : (k : String) (v : V) (m : Dict V) → Unique m → Unique (set k v m)
  unfolding get set
  set-Unique k v [] u = (refl, tt)
  set-Unique k v ((i, w) ∷ m) u =
      ground (arith, get-set k i v m, eq_iff k i, eq_iff i k, set-Unique k v m u.1)

  pub delete-Unique : (k : String) (m : Dict V) → Unique m → Unique (delete k m)
  unfolding delete
  delete-Unique k [] u = tt
  delete-Unique k ((i, w) ∷ m) u = ground (arith, get-delete k i m, delete-Unique k m u.1)

  pub delete_absent : (k : String) (m : Dict V) → get k m ≡ none → delete k m ≡ m
  unfolding get delete
  delete_absent k [] h = refl
  delete_absent k ((i, w) ∷ m) h = ground (arith, delete_absent k m)

  pub total-set_new :
      (f : V → ℕ) (k : String) (v : V) (m : Dict V)
      → get k m ≡ none
      → total f (set k v m) ≡ total f m + f v
  unfolding get set
  total-set_new f k v [] h = omega arith
  total-set_new f k v ((i, w) ∷ m) h = ground (arith, total-set_new f k v m)

  pub total-delete :
      (f : V → ℕ) (k : String) (v : V) (m : Dict V)
      → Unique m
      → get k m ≡ some v
      → total f (delete k m) + f v ≡ total f m
  unfolding get delete
  total-delete f k v [] u h = ground arith
  total-delete f k v ((i, w) ∷ m) u h = elim (Bool-cases (str_eq i k)) [
    | inl hit ↦
        let e : i ≡ k = (eq_iff i k).0 hit in ground (arith, delete_absent k m, ap-get m i k e)
    | inr miss ↦ ground (arith, total-delete f k v m u.1)
  ]
    where
      ap-get : (m : Dict V) (i k : String) → i ≡ k → get i m ≡ get k m
      ap-get m i k e j = get (e j) m

  pub size-total : (m : Dict V) → size m ≡ total (λ _. 1) m
  size-total [] = refl
  size-total ((_, _) ∷ m) = omega (arith, size-total m)

  pub size-set_new :
      (k : String) (v : V) (m : Dict V) → get k m ≡ none → size (set k v m) ≡ suc (size m)
  size-set_new k v m h =
      omega (arith, size-total m, size-total (set k v m), total-set_new (λ _. 1) k v m h)

  pub size-delete :
      (k : String) (v : V) (m : Dict V)
      → Unique m
      → get k m ≡ some v
      → suc (size (delete k m)) ≡ size m
  size-delete k v m u h =
      omega (arith, size-total m, size-total (delete k m), total-delete (λ _. 1) k v m u h)
