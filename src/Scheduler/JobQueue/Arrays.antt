-- ===== src/Scheduler/JobQueue/Arrays.antt =====
-- Reads, writes and exchanges of the array, and that they keep its entries.
use mathlib.Core.List.{Perm}
use mathlib.Core.List.Perm
use roboppi.Base.{
  ℕ, zero, suc, ◌+◌, ◌-◌, ◌<◌, ◌≡◌, refl, ap, subst, ◌∙◌, inl, inr, List, [], ◌∷◌, ◌++◌, arith,
  ◌==◌, if◌then◌else◌, length, set, length-set, get_or-set_self, get_or-set_ne, Bool-cases,
}
use roboppi.Scheduler.JobQueue.{HeapEntry, nothing, at, swap, drop_last}

pub at-set :
    (heap : List HeapEntry) (i j : ℕ) (v : HeapEntry)
    → i < length heap
    → at (set heap i v) j ≡ (if i == j then v else at heap j)
at-set heap i j v h = elim (Bool-cases (i == j)) [
  | inl e ↦
      rw e
        (ap (at (set heap i v)) {x = j} {y = i} (ground arith) ∙ get_or-set_self heap i v nothing h)
  | inr n ↦ rw n (get_or-set_ne heap i j v nothing (ground arith))
]

pub length-swap : (i j : ℕ) (heap : List HeapEntry) → length (swap i j heap) ≡ length heap
unfolding swap
length-swap i j heap =
    length-set (set heap i (at heap j)) j (at heap i) ∙ length-set heap i (at heap j)

pub at-swap :
    (i j k : ℕ) (heap : List HeapEntry)
    → i < length heap
    → j < length heap
    → at (swap i j heap) k ≡ (if j == k then at heap i else if i == k then at heap j else at heap k)
unfolding swap
at-swap i j k heap hi hj =
    at-set (set heap i (at heap j)) j k (at heap i) (rw length-set hj)
    ∙ ap (λ x. if j == k then at heap i else x) (at-set heap i k (at heap j) hi)

-- Writing an entry gives one back and takes one in.
set-Perm :
    (heap : List HeapEntry) (i : ℕ) (v : HeapEntry)
    → i < length heap
    → Perm (at heap i ∷ set heap i v) (v ∷ heap)
set-Perm [] i v h = absurd (omega arith)
set-Perm (x ∷ xs) zero v h = Perm.swap v x xs
set-Perm (x ∷ xs) (suc i) v h =
    Perm.trans (Perm.swap x (at xs i) (set xs i v))
      (Perm.trans (Perm.cons x (set-Perm xs i v (omega arith))) (Perm.swap v x xs))

pub swap-Perm :
    (i j : ℕ) (heap : List HeapEntry)
    → i < length heap
    → j < length heap
    → Perm (swap i j heap) heap
unfolding swap
swap-Perm i j heap hi hj = Perm.cons_inv (
    Perm.trans
      (subst (λ x. Perm (x ∷ set b j (at heap i)) (at heap i ∷ b)) there
        (set-Perm b j (at heap i) (rw length-set hj)))
      (set-Perm heap i (at heap j) hi))
  where
    b : List HeapEntry
    b = set heap i (at heap j)

    there : at b j ≡ at heap j
    there = ground (arith, at-set heap i j (at heap j) hi)

pub length-drop_last : (heap : List HeapEntry) → length (drop_last heap) ≡ length heap - 1
unfolding drop_last
length-drop_last [] = omega arith
length-drop_last (x ∷ []) = omega arith
length-drop_last (x ∷ y ∷ xs) = omega (arith, length-drop_last (y ∷ xs))

pub at-drop_last :
    (heap : List HeapEntry) (i : ℕ) → i + 1 < length heap → at (drop_last heap) i ≡ at heap i
unfolding drop_last
at-drop_last [] i h = absurd (omega arith)
at-drop_last (x ∷ []) i h = absurd (omega arith)
at-drop_last (x ∷ y ∷ xs) zero h = refl
at-drop_last (x ∷ y ∷ xs) (suc i) h = at-drop_last (y ∷ xs) i (omega arith)

-- The last entry and the others.
pub drop_last-Perm :
    (heap : List HeapEntry) (n : ℕ) → length heap ≡ suc n → Perm heap (at heap n ∷ drop_last heap)
unfolding drop_last
drop_last-Perm [] n h = absurd (omega arith)
drop_last-Perm (x ∷ []) zero h = Perm.refl (x ∷ [])
drop_last-Perm (x ∷ []) (suc n) h = absurd (omega arith)
drop_last-Perm (x ∷ y ∷ xs) zero h = absurd (omega arith)
drop_last-Perm (x ∷ y ∷ xs) (suc n) h =
    Perm.trans (Perm.cons x (drop_last-Perm (y ∷ xs) n (omega arith)))
      (Perm.swap (at (y ∷ xs) n) x (drop_last (y ∷ xs)))

pub at-append :
    (heap : List HeapEntry) (e : HeapEntry) (i : ℕ)
    → i < length heap
    → at (heap ++ e ∷ []) i ≡ at heap i
at-append [] e i h = absurd (omega arith)
at-append (x ∷ xs) e zero h = refl
at-append (x ∷ xs) e (suc i) h = at-append xs e i (omega arith)

pub at-append_last : (heap : List HeapEntry) (e : HeapEntry) → at (heap ++ e ∷ []) (length heap) ≡ e
at-append_last [] e = refl
at-append_last (x ∷ xs) e = at-append_last xs e

pub append-Perm : (heap : List HeapEntry) (e : HeapEntry) → Perm (heap ++ e ∷ []) (e ∷ heap)
append-Perm [] e = Perm.refl (e ∷ [])
append-Perm (x ∷ xs) e = Perm.trans (Perm.cons x (append-Perm xs e)) (Perm.swap e x xs)
