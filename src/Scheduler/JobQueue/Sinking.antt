-- ===== src/Scheduler/JobQueue/Sinking.antt =====
-- `sift_down` repairs a heap whose one entry may stand too high.
use mathlib.Core.List.{Perm}
use mathlib.Core.List.Perm
use roboppi.Base.{
  ℕ, zero, suc, ◌+◌, ◌*◌, ◌≤◌, ◌<◌, ◌≡◌, ◌≢◌, refl, ◌⊎◌, inl, inr, true, false, ◌&&◌, List, arith,
  ltb, ◌==◌, if◌then◌else◌, length, Bool-cases,
}
use roboppi.Scheduler.JobQueue.{
  HeapEntry, at, parent, swap, higher_priority, better, best_of, sift_down,
}
use roboppi.Scheduler.JobQueue.Order.{higher_priority_asym, higher_priority_trans, not_higher_trans}
use roboppi.Scheduler.JobQueue.Arrays.{length-swap, at-swap, swap-Perm}
use roboppi.Scheduler.JobQueue.Rising.{InOrder, IsHeap}

-- Only the edges below `i` may be out of order, and what is below `i` is in order with what is above.
pub record IsSinking (heap : List HeapEntry) (i : ℕ) : Type 0 where
  pub edges : (c : ℕ) → 0 < c → c < length heap → parent c ≢ i → InOrder heap (parent c) c
  pub bridge : (c : ℕ) → 0 < c → c < length heap → parent c ≡ i → 0 < i → InOrder heap (parent i) c

higher_irrefl : (a : HeapEntry) → higher_priority a a ≡ false
higher_irrefl a = ground (arith, higher_priority_asym a a)

-- The better of a child and an index: in order with both, and higher if it is not the index.
record IsBetter (heap : List HeapEntry) (child best m : ℕ) : Type 0 where
  which :
      (m ≡ best)
      ⊎ ((m ≡ child)
          × (child < length heap)
          × (higher_priority (at heap child) (at heap best) ≡ true))
  old : InOrder heap m best
  new : child < length heap → InOrder heap m child

better-IsBetter :
    (heap : List HeapEntry) (child best : ℕ) → IsBetter heap child best (better heap child best)
unfolding better
better-IsBetter heap child best =
    elim (Bool-cases (ltb child (length heap) && higher_priority (at heap child) (at heap best))) [
      | inl go ↦ rw go (record {
        which = inr (refl, ground arith, ground arith);
        old = ground (arith, higher_priority_asym (at heap child) (at heap best));
        new = λ _. higher_irrefl (at heap child);
      })
      | inr stop ↦ rw stop (record {
        which = inl refl;
        old = higher_irrefl (at heap best);
        new = λ lt. ground arith;
      })
    ]

-- The best of an index and its children.
record IsBest (heap : List HeapEntry) (i m : ℕ) : Type 0 where
  which :
      (m ≡ i)
      ⊎ ((m ≡ 2 * i + 1) ⊎ (m ≡ 2 * i + 2))
        × (m < length heap)
        × (higher_priority (at heap m) (at heap i) ≡ true)
  children : (c : ℕ) → 0 < c → c < length heap → parent c ≡ i → InOrder heap m c

best_of-IsBest : (heap : List HeapEntry) (i : ℕ) → IsBest heap i (best_of heap i)
unfolding best_of
best_of-IsBest heap i = record {
  which = ground (
    arith,
    first.which,
    second.which,
    higher_priority_trans (at heap (2 * i + 2)) (at heap l) (at heap i),
  );
  children = λ c pos lt e. elim (sides c pos e) [
    | inl left ↦ rw left (
        not_higher_trans (at heap (2 * i + 1)) (at heap l) (at heap m) (first.new (omega arith))
          second.old)
    | inr right ↦ rw right (second.new (omega arith))
  ];
}
  where
    l : ℕ
    l = better heap (2 * i + 1) i

    m : ℕ
    m = better heap (2 * i + 2) l

    first : IsBetter heap (2 * i + 1) i l
    first = better-IsBetter heap (2 * i + 1) i

    second : IsBetter heap (2 * i + 2) l m
    second = better-IsBetter heap (2 * i + 2) l

    sides : (c : ℕ) → 0 < c → parent c ≡ i → (c ≡ 2 * i + 1) ⊎ (c ≡ 2 * i + 2)
    sides c pos e = omega arith

module _ (heap : List HeapEntry) (i m : ℕ) (v : IsSinking heap i) (inside : m < length heap)
    (child : (m ≡ 2 * i + 1) ⊎ (m ≡ 2 * i + 2))
    (high : higher_priority (at heap m) (at heap i) ≡ true)
    (least : (c : ℕ) → 0 < c → c < length heap → parent c ≡ i → InOrder heap m c) where
  above : i < length heap
  above = omega arith

  moved :
      (k : ℕ)
      → at (swap i m heap) k
        ≡ (if m == k then at heap i else if i == k then at heap m else at heap k)
  moved k = at-swap i m k heap above inside

  sink-IsSinking : IsSinking (swap i m heap) m
  sink-IsSinking = record {
    edges = λ c pos lt ne. ground (
      arith,
      moved c,
      moved (parent c),
      v.edges c pos (omega (arith, length-swap i m heap)),
      v.bridge m,
      least c pos (omega (arith, length-swap i m heap)),
      higher_priority_asym (at heap m) (at heap i),
    );
    bridge = λ c pos lt e up.
        ground
          (arith, moved c, moved (parent m), v.edges c pos (omega (arith, length-swap i m heap)));
  }

-- With a round for each entry from the index on, the entry finds its place, and no entry is lost.
pub sift_down-IsHeap :
    (rounds i : ℕ) (heap : List HeapEntry)
    → length heap ≤ i + rounds
    → IsSinking heap i
    → IsHeap (sift_down rounds i heap) × Perm (sift_down rounds i heap) heap
unfolding sift_down
sift_down-IsHeap zero i heap h v = ((λ c pos lt. v.edges c pos lt (omega arith)), Perm.refl heap)
sift_down-IsHeap (suc rounds) i heap h v = elim (best_of-IsBest heap i).which [
  | inl stop ↦
      let done : (best_of heap i == i) ≡ true = ground arith in
      rw done (
        (λ c pos lt.
            ground (arith, v.edges c pos lt, (best_of-IsBest heap i).children c pos lt, stop)),
        Perm.refl heap,
      )
  | inr (child, inside, high) ↦
      let go : (best_of heap i == i) ≡ false = ground arith in
      let m = best_of heap i in
      let next = sink-IsSinking heap i m v inside child high (best_of-IsBest heap i).children in
      let (ordered, same) =
        sift_down-IsHeap rounds m (swap i m heap) (omega (arith, length-swap i m heap)) next in
      rw go (ordered, Perm.trans same (swap-Perm i m heap (omega arith) inside))
]
