-- ===== src/Scheduler/JobQueue/Sorted.antt =====
-- The top of a heap is its highest entry; enqueueing and removing the top keep a heap.
use mathlib.Core.List.{Perm}
use mathlib.Core.List.Perm
use roboppi.Base.{
  ℕ, zero, suc, ◌+◌, ◌-◌, ◌≤◌, ◌<◌, ◌≡◌, refl, false, List, [], ◌∷◌, ◌++◌, arith, ◌==◌, length,
  length-append, All,
}
use roboppi.Types.{Job}
use roboppi.Scheduler.JobQueue.{
  HeapEntry, JobQueue, at, parent, higher_priority, enqueue, drop_last, remove_top,
}
use roboppi.Scheduler.JobQueue.Order.{higher_priority_asym, not_higher_trans}
use roboppi.Scheduler.JobQueue.Arrays.{
  at-append, append-Perm, length-drop_last, at-drop_last, drop_last-Perm,
}
use roboppi.Scheduler.JobQueue.Rising.{InOrder, IsHeap, IsRising, sift_up-IsHeap}
use roboppi.Scheduler.JobQueue.Sinking.{IsSinking, sift_down-IsHeap}

below_top :
    (n : ℕ) (heap : List HeapEntry) (i : ℕ)
    → IsHeap heap
    → i ≤ n
    → i < length heap
    → InOrder heap 0 i
below_top zero heap zero h le lt = ground (arith, higher_priority_asym (at heap 0) (at heap 0))
below_top zero heap (suc i) h le lt = absurd (omega arith)
below_top (suc n) heap zero h le lt = ground (arith, higher_priority_asym (at heap 0) (at heap 0))
below_top (suc n) heap (suc i) h le lt =
    not_higher_trans (at heap (suc i)) (at heap (parent (suc i))) (at heap 0)
      (h (suc i) (omega arith) lt) (below_top n heap (parent (suc i)) h (omega arith) (omega arith))

All-below :
    (e : HeapEntry) (heap : List HeapEntry)
    → ((i : ℕ) → i < length heap → higher_priority (at heap i) e ≡ false)
    → All (λ x. higher_priority x e ≡ false) heap
All-below e [] h = tt
All-below e (x ∷ xs) h = (h 0 (omega arith), All-below e xs (λ i lt. h (suc i) (omega arith)))

-- No entry of a heap is higher than its top.
pub top_highest :
    (top : HeapEntry) (rest : List HeapEntry)
    → IsHeap (top ∷ rest)
    → All (λ x. higher_priority x top ≡ false) (top ∷ rest)
top_highest top rest h =
    All-below top (top ∷ rest) (λ i lt. below_top i (top ∷ rest) i h (omega arith) lt)

pub enqueue-IsHeap :
    (job : Job) (q : JobQueue)
    → IsHeap q.heap
    → IsHeap (enqueue job q).heap
      × Perm (enqueue job q).heap (record { job = job; seq = q.seq } ∷ q.heap)
unfolding enqueue
enqueue-IsHeap job q h =
    let (ordered, same) = sift_up-IsHeap n (n - 1) b (omega arith) last_rises in
    (ordered, Perm.trans same (append-Perm q.heap e))
  where
    e : HeapEntry
    e = record { job = job; seq = q.seq }

    b : List HeapEntry
    b = q.heap ++ e ∷ []

    n : ℕ
    n = length b

    size : n ≡ length q.heap + 1
    size = length-append q.heap (e ∷ [])

    last_rises : IsRising b (n - 1)
    last_rises = record {
      inside = omega (arith, size);
      edges = λ c pos lt ne.
          ground (arith, size, h c pos, at-append q.heap e c, at-append q.heap e (parent c));
      bridge = λ c pos lt p up. absurd (omega (arith, size));
    }

pub remove_top-IsHeap :
    (top : HeapEntry) (rest : List HeapEntry)
    → IsHeap (top ∷ rest)
    → IsHeap (remove_top (top ∷ rest)) × Perm (top ∷ rest) (top ∷ remove_top (top ∷ rest))
unfolding remove_top drop_last
remove_top-IsHeap top [] h = ((λ c pos lt. absurd (omega arith)), Perm.refl (top ∷ []))
remove_top-IsHeap top (y ∷ ys) h =
    let (ordered, same) = sift_down-IsHeap (length r) 0 (last ∷ others) (omega arith) last_sinks in
    let some_left : (length r == 0) ≡ false = ground arith in
    let index : length (top ∷ y ∷ ys) - 1 ≡ length (y ∷ ys) = omega arith in
    rw (some_left, index)
      (
        ordered,
        Perm.trans (drop_last-Perm (top ∷ y ∷ ys) (length (y ∷ ys)) refl)
            (Perm.trans (Perm.swap top last others) (Perm.cons top (Perm.symm same))),
      )
  where
    others : List HeapEntry
    others = drop_last (y ∷ ys)

    last : HeapEntry
    last = at (y ∷ ys) (length ys)

    r : List HeapEntry
    r = top ∷ others

    size : length others ≡ length ys
    size = omega (arith, length-drop_last (y ∷ ys))

    kept : (c : ℕ) → 0 < c → c < length r → at (last ∷ others) c ≡ at (top ∷ y ∷ ys) c
    kept zero pos lt = absurd (omega arith)
    kept (suc c) pos lt = at-drop_last (y ∷ ys) c (omega (arith, size))

    last_sinks : IsSinking (last ∷ others) 0
    last_sinks = record {
      edges = λ c pos lt ne. ground (arith, size, h c pos, kept c pos lt, kept (parent c));
      bridge = λ c pos lt p up. absurd (omega arith);
    }
