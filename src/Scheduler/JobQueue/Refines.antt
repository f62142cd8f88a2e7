-- ===== src/Scheduler/JobQueue/Refines.antt =====
-- The queue of src/scheduler/job-queue.ts answers as a list of jobs in order.
use mathlib.Core.Logic.{∥∥₁_elim}
use mathlib.Core.Logic.Or
use mathlib.Core.List.{Perm, Permᴰ, mem-cons, mem-cons_self}
use mathlib.Core.List.Perm
use roboppi.Base.{
  ℕ, suc, ◌+◌, ◌≡◌, refl, ap, ap₂, sym, ◌∙◌, subst, true, false, some, List, [], ◌∷◌, arith, ltb,
  length, All,
}
use roboppi.Types.{Job}
use roboppi.Scheduler.JobQueue.{HeapEntry, JobQueue, new, higher_priority, enqueue, dequeue, peek}
use roboppi.Scheduler.JobQueue.Line.{
  Call, put, take, take_from, call, view_of, views, line_call, front, line_view, line_views,
}
use roboppi.Scheduler.JobQueue.Rising.{IsHeap}
use roboppi.Scheduler.JobQueue.Sorted.{top_highest, enqueue-IsHeap, remove_top-IsHeap}
use roboppi.Scheduler.JobQueue.Entries.{
  entry_set, All-mem, jobs_of, length-jobs_of, Sorted, insert_entry, All-insert_entry,
  insert_entry-Perm, insert_entry-Sorted, jobs_of-insert_entry,
}

-- The queue holds a heap of the entries `es`, which stand in order and came before the next.
record Holds (q : JobQueue) (es : List HeapEntry) : Type 0 where
  heap : IsHeap q.heap
  same : Perm q.heap es
  sorted : Sorted es
  earlier : All (λ x. ltb x.seq q.seq ≡ true) es

module _ (top e : HeapEntry) (rest es : List HeapEntry) (heap : IsHeap (top ∷ rest))
    (same : Perm (top ∷ rest) (e ∷ es)) (sorted : Sorted (e ∷ es)) where
  not_top : higher_priority e top ≡ false
  not_top =
      All-mem (λ x. higher_priority x top ≡ false) (λ x. hlevel) e (top ∷ rest)
        (top_highest top rest heap) ((Perm.mem_iff same).1 mem-cons_self)

  -- The top of the heap is the first of the entries in order.
  top_first : top ≡ e
  top_first =
      Or.elim (entry_set top e) (mem-cons.0 ((Perm.mem_iff same).0 mem-cons_self)) (λ p. p)
        (λ m. absurd (
          ground (
            arith,
            not_top,
            All-mem (λ x. higher_priority e x ≡ true) (λ x. hlevel) top es sorted.0 m,
          )))

Permᴰ_length : {xs ys : List HeapEntry} → Permᴰ xs ys → length xs ≡ length ys
Permᴰ_length Permᴰ.nil = refl
Permᴰ_length (Permᴰ.cons e p) = ap suc (Permᴰ_length p)
Permᴰ_length (Permᴰ.swap e f) = refl
Permᴰ_length (Permᴰ.trans p q) = Permᴰ_length p ∙ Permᴰ_length q

length_same : {xs ys : List HeapEntry} → Perm xs ys → length xs ≡ length ys
length_same p = ∥∥₁_elim p (hlevel) Permᴰ_length

not_fewer : {e : HeapEntry} {es : List HeapEntry} → Perm [] (e ∷ es) → ⊥
not_fewer p = omega (arith, length_same p)

All-earlier :
    (n : ℕ) (xs : List HeapEntry)
    → All (λ x. ltb x.seq n ≡ true) xs
    → All (λ x. ltb x.seq (n + 1) ≡ true) xs
All-earlier n [] h = tt
All-earlier n (x ∷ xs) h = (ground (arith, h.0), All-earlier n xs h.1)

-- What a queue answers to a call, and what it holds after it.
record Answers (q : JobQueue) (es : List HeapEntry) (c : Call) : Type 0 where
  answer : (call c q).0 ≡ (line_call c (jobs_of es)).0
  after : List HeapEntry
  holds : Holds (call c q).1 after
  jobs : jobs_of after ≡ (line_call c (jobs_of es)).1

put-Answers : (job : Job) (q : JobQueue) (es : List HeapEntry) → Holds q es → Answers q es (put job)
unfolding call line_call enqueue
put-Answers job q es h = record {
  answer = refl;
  after = insert_entry e es;
  holds = record {
    heap = (enqueue-IsHeap job q h.heap).0;
    same =
        Perm.trans (enqueue-IsHeap job q h.heap).1
          (Perm.trans (Perm.cons e h.same) (Perm.symm (insert_entry-Perm e es)));
    sorted = insert_entry-Sorted e es h.sorted h.earlier;
    earlier = next;
  };
  jobs = jobs_of-insert_entry e es;
}
  where
    e : HeapEntry
    e = record { job = job; seq = q.seq }

    next : All (λ x. ltb x.seq (enqueue job q).seq ≡ true) (insert_entry e es)
    next =
        All-insert_entry (λ x. ltb x.seq (q.seq + 1) ≡ true) e es (ground arith)
          (All-earlier q.seq es h.earlier)

take-heap_Answers :
    (heap : List HeapEntry) (n : ℕ) (es : List HeapEntry)
    → Holds (record { heap = heap; seq = n }) es
    → Answers (record { heap = heap; seq = n }) es take
unfolding call line_call dequeue take_from jobs_of
take-heap_Answers [] n [] h = record { answer = refl; after = []; holds = h; jobs = refl }
take-heap_Answers [] n (e ∷ es) h = absurd (not_fewer h.same)
take-heap_Answers (top ∷ rest) n [] h = absurd (not_fewer (Perm.symm h.same))
take-heap_Answers (top ∷ rest) n (e ∷ es) h =
    let first = top_first top e rest es h.heap h.same h.sorted in
    let (ordered, kept) = remove_top-IsHeap top rest h.heap in
    record {
      answer = ap (λ x. some x.job) first;
      after = es;
      holds = record {
        heap = ordered;
        same =
            Perm.trans (Perm.symm (Perm.cons_inv kept))
              (Perm.cons_inv (subst (λ x. Perm (x ∷ rest) (e ∷ es)) first h.same));
        sorted = h.sorted.1;
        earlier = h.earlier.1;
      };
      jobs = refl;
    }

answers : (c : Call) (q : JobQueue) (es : List HeapEntry) → Holds q es → Answers q es c
answers (put job) q es h = put-Answers job q es h
answers take q es h = take-heap_Answers q.heap q.seq es h

peek-front :
    (heap : List HeapEntry) (n : ℕ) (es : List HeapEntry)
    → Holds (record { heap = heap; seq = n }) es
    → peek (record { heap = heap; seq = n }) ≡ front (jobs_of es)
unfolding peek front jobs_of
peek-front [] n [] h = refl
peek-front [] n (e ∷ es) h = absurd (not_fewer h.same)
peek-front (top ∷ rest) n [] h = absurd (not_fewer (Perm.symm h.same))
peek-front (top ∷ rest) n (e ∷ es) h =
    ap (λ x. some x.job) (top_first top e rest es h.heap h.same h.sorted)

views-line_views :
    (cs : List Call) (q : JobQueue) (es : List HeapEntry)
    → Holds q es
    → views q cs ≡ line_views (jobs_of es) cs
unfolding views line_views view_of line_view
views-line_views [] q es h = refl
views-line_views (c ∷ cs) q es h =
    let a = answers c q es h in
    let here : view_of (call c q) ≡ line_view (line_call c (jobs_of es)) = λ i. record {
      answer = a.answer i;
      first = (peek-front (call c q).1.heap (call c q).1.seq a.after a.holds ∙ ap front a.jobs) i;
      count =
          (length_same a.holds.same ∙ sym (length-jobs_of a.after) ∙ ap (λ x. length x) a.jobs) i;
    } in
    ap₂ ◌∷◌ here
      (views-line_views cs (call c q).1 a.after a.holds ∙ ap (λ js. line_views js cs) a.jobs)

-- Whatever calls are made of a new queue, each answers as in a list where a job stands behind all
-- that it does not outrank; so do `peek` and `size` after it.
pub queue_refines : (cs : List Call) → views new cs ≡ line_views [] cs
unfolding jobs_of
queue_refines cs = views-line_views cs new [] (record {
  heap = λ c pos lt. absurd (omega arith);
  same = Perm.refl [];
  sorted = tt;
  earlier = tt;
})
