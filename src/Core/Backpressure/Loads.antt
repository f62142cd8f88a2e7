-- ===== src/Core/Backpressure/Loads.antt =====
-- The largest of several loads reaches a threshold exactly if one of them does.
use roboppi.Base.{ap, ◌∙◌, inl, inr, ◌⊎◌, ℕ, ◌*◌, ◌≤◌, ◌<◌, ◌≡◌, Bool, ◌||◌, arith, leb}
use native.Mathlib.Nat.{mul-le-mul_right, le_of_mul-le-mul_right}
use roboppi.Core.Backpressure.{Fraction, ratio, divide, larger, reaches}

-- The fraction `a / b` is at most `n / d`, which is at most `m / e`.
cross_trans : (a b n d m e : ℕ) → 0 < d → a * d ≤ n * b → n * e ≤ m * d → a * e ≤ m * b
cross_trans a b n d m e h p q =
    le_of_mul-le-mul_right (omega (arith, mul-le-mul_right e p, mul-le-mul_right b q)) h

-- A count that is at least the threshold's share of its maximum.
abbrev pub meets : ℕ → ℕ → Fraction → Bool
meets n d t = leb (t.num * d) (n * t.den)

pub reaches-divide : (n d : ℕ) (t : Fraction) → 0 < d → reaches (divide n d) t ≡ meets n d t
unfolding reaches divide
reaches-divide n d t h = ground arith

pub divide-pos : (n d : ℕ) → 0 < d → divide n d ≡ ratio n d
unfolding divide
divide-pos n d h = ground arith

pub reaches-larger :
    (n d m e : ℕ) (t : Fraction)
    → 0 < d
    → 0 < e
    → reaches (larger (ratio n d) (ratio m e)) t ≡ (meets n d t || meets m e t)
unfolding reaches larger
reaches-larger n d m e t p q =
    ground (arith, cross_trans t.num t.den n d m e p, cross_trans t.num t.den m e n d q)

-- The larger of two ratios is one of them.
pub larger-ratio :
    (n d m e : ℕ)
    → (larger (ratio n d) (ratio m e) ≡ ratio n d) ⊎ (larger (ratio n d) (ratio m e) ≡ ratio m e)
unfolding larger
larger-ratio n d m e = ground arith

pub reaches-larger_three :
    (n d m e k f : ℕ) (t : Fraction)
    → 0 < d
    → 0 < e
    → 0 < f
    → reaches (larger (ratio n d) (larger (ratio m e) (ratio k f))) t
      ≡ (meets n d t || (meets m e t || meets k f t))
unfolding reaches
reaches-larger_three n d m e k f t p q r = elim (larger-ratio m e k f) [
  | inl c ↦ rw c (
      reaches-larger n d m e t p q
      ∙ ap (λ x. meets n d t || x) (rw c at (reaches-larger m e k f t q r)))
  | inr c ↦ rw c (
      reaches-larger n d k f t p r
      ∙ ap (λ x. meets n d t || x) (rw c at (reaches-larger m e k f t q r)))
]
