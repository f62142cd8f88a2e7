-- ===== src/Scheduler/JobQueue/Rising.antt =====
-- `sift_up` repairs a heap whose one entry may stand too low.
use mathlib.Core.List.{Perm}
use mathlib.Core.List.Perm
use roboppi.Base.{
  ℕ, zero, suc, ◌≤◌, ◌<◌, ◌≡◌, ◌≢◌, inl, inr, true, false, ◌&&◌, List, arith, ltb, ◌==◌,
  if◌then◌else◌, length, Bool-cases,
}
use roboppi.Scheduler.JobQueue.{HeapEntry, at, parent, swap, higher_priority, sift_up}
use roboppi.Scheduler.JobQueue.Order.{higher_priority_asym, higher_priority_trans, not_higher_trans}
use roboppi.Scheduler.JobQueue.Arrays.{length-swap, at-swap, swap-Perm}

-- The entry at `i` need not wait for the entry at `c`.
abbrev pub InOrder : List HeapEntry → ℕ → ℕ → Type 0
InOrder heap i c = higher_priority (at heap c) (at heap i) ≡ false

-- No entry is higher than the one above it.
abbrev pub IsHeap : List HeapEntry → Type 0
IsHeap heap = (c : ℕ) → 0 < c → c < length heap → InOrder heap (parent c) c

-- Only the edge above `i` may be out of order, and what is below `i` is in order with what is above.
pub record IsRising (heap : List HeapEntry) (i : ℕ) : Type 0 where
  pub inside : i < length heap
  pub edges : (c : ℕ) → 0 < c → c < length heap → c ≢ i → InOrder heap (parent c) c
  pub bridge : (c : ℕ) → 0 < c → c < length heap → parent c ≡ i → 0 < i → InOrder heap (parent i) c

module _ (heap : List HeapEntry) (i : ℕ) (v : IsRising heap i) (below : 0 < i)
    (high : higher_priority (at heap i) (at heap (parent i)) ≡ true) where
  above : parent i < length heap
  above = omega (arith, v.inside)

  moved :
      (k : ℕ)
      → at (swap i (parent i) heap) k
        ≡ (if parent i == k then at heap i else if i == k then at heap (parent i) else at heap k)
  moved k = at-swap i (parent i) k heap v.inside above

  -- What is in order with the old parent is in order with the entry that takes its place.
  passes_down : (c : ℕ) → InOrder heap (parent i) c → InOrder heap i c
  passes_down c h =
      ground (arith, h, higher_priority_trans (at heap c) (at heap i) (at heap (parent i)))

  rise-IsRising : IsRising (swap i (parent i) heap) (parent i)
  rise-IsRising = record {
    inside = omega (arith, above, length-swap i (parent i) heap);
    edges = λ c pos lt ne. ground (
      arith,
      moved c,
      moved (parent c),
      v.edges c pos (omega (arith, length-swap i (parent i) heap)),
      v.bridge c pos (omega (arith, length-swap i (parent i) heap)),
      passes_down c,
      higher_priority_asym (at heap i) (at heap (parent i)),
    );
    bridge = λ c pos lt e up. ground (
      arith,
      moved c,
      moved (parent (parent i)),
      v.edges (parent i) up above,
      v.edges c pos (omega (arith, length-swap i (parent i) heap)),
      not_higher_trans (at heap c) (at heap (parent i)) (at heap (parent (parent i))),
    );
  }

IsRising-IsHeap :
    (heap : List HeapEntry) (i : ℕ)
    → IsRising heap i
    → (ltb 0 i && higher_priority (at heap i) (at heap (parent i))) ≡ false
    → IsHeap heap
IsRising-IsHeap heap i v h c pos lt = ground (arith, v.edges c pos lt, h)

-- With as many rounds as the index, the entry finds its place, and no entry is lost.
pub sift_up-IsHeap :
    (rounds i : ℕ) (heap : List HeapEntry)
    → i ≤ rounds
    → IsRising heap i
    → IsHeap (sift_up rounds i heap) × Perm (sift_up rounds i heap) heap
unfolding sift_up
sift_up-IsHeap zero i heap h v = (IsRising-IsHeap heap i v (ground arith), Perm.refl heap)
sift_up-IsHeap (suc rounds) i heap h v =
    elim (Bool-cases (ltb 0 i && higher_priority (at heap i) (at heap (parent i)))) [
      | inl go ↦
          let below : 0 < i = ground arith in
          let high : higher_priority (at heap i) (at heap (parent i)) ≡ true = ground arith in
          let (ordered, same) =
            sift_up-IsHeap rounds (parent i) (swap i (parent i) heap) (omega arith)
              (rise-IsRising heap i v below high) in
          rw go (
            ordered,
            Perm.trans same (swap-Perm i (parent i) heap v.inside (above heap i v below high)),
          )
      | inr stop ↦ rw stop (IsRising-IsHeap heap i v stop, Perm.refl heap)
    ]
