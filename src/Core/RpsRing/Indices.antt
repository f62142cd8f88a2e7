-- ===== src/Core/RpsRing/Indices.antt =====
-- Indices that wrap round at most once.
use roboppi.Base.{
  ℕ, ◌+◌, ◌-◌, ◌%◌, ◌≤◌, ◌<◌, ◌≡◌, ◌≢◌, ◌∙◌, sym, ap, arith, ltb, if◌then◌else◌, Bool-cases, inl,
  inr,
}
use native.Mathlib.Nat.{mod-eq_of_lt, mod-eq-sub-mod, mod-add-mod}

pub mod_wrap : (x c : ℕ) → x < c + c → x % c ≡ (if ltb x c then x else x - c)
mod_wrap x c h = elim (Bool-cases (ltb x c)) [
  | inl low ↦ rw low (mod-eq_of_lt (ground arith))
  | inr high ↦
      let le : c ≤ x = ground arith in rw high (mod-eq-sub-mod le ∙ mod-eq_of_lt (omega arith))
]

module _ (c head count : ℕ) (h : head < c) (k : count ≤ c) where
  -- The slot behind the newest entry is the head.
  pub tail-add-count : ((head + c - count) % c + count) % c ≡ head
  tail-add-count =
      mod-add-mod (head + c - count) c count
      ∙ (ap (λ x. x % c) {x = head + c - count + count} {y = head + c} (omega arith)
          ∙ (mod_wrap (head + c) c (omega arith) ∙ ground arith))

  -- A push, which takes one slot more, leaves the tail where it is.
  pub tail-push : count < c → ((head + 1) % c + c - (count + 1)) % c ≡ (head + c - count) % c
  tail-push lt = ground (
    arith,
    mod_wrap (head + 1) c (omega arith),
    mod_wrap (head + c - count) c (omega arith),
    mod_wrap ((head + 1) % c + c - (count + 1)) c
        (ground (arith, mod_wrap (head + 1) c (omega arith))),
  )

  -- Dropping the `e` oldest entries moves the tail on by `e`.
  pub tail-drop :
      (e : ℕ) → e ≤ count → (head + c - (count - e)) % c ≡ ((head + c - count) % c + e) % c
  tail-drop e le =
      ap (λ x. x % c) {x = head + c - (count - e)} {y = head + c - count + e} (omega arith)
      ∙ sym (mod-add-mod (head + c - count) c e)

-- Two places in a row of less than `c` differ.
pub slots_differ : (c start i j : ℕ) → start < c → i < j → j < c → (start + i) % c ≢ (start + j) % c
slots_differ c start i j s lt le e =
    absurd
      (ground (arith, mod_wrap (start + i) c (omega arith), mod_wrap (start + j) c (omega arith)))
