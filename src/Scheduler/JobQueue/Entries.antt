-- ===== src/Scheduler/JobQueue/Entries.antt =====
-- Entries of src/scheduler/job-queue.ts in the order in which they leave.
use mathlib.Core.HLevel.{hedberg}
use mathlib.Core.Logic.Or
use mathlib.Core.List.{Perm, Mem, mem-cons, not-mem-nil}
use mathlib.Core.List.Perm
use roboppi.Base.{
  suc, String, str_eq, eq_iff, ◌≡◌, refl, ap, sym, ◌∙◌, subst, true, inl, inr, List, [], ◌∷◌, arith,
  ltb, if◌then◌else◌, length, Bool-cases, All,
}
use roboppi.Types.{Job}
use roboppi.Scheduler.JobQueue.{HeapEntry, higher_priority}
use roboppi.Scheduler.JobQueue.Order.{
  outranks, higher_priority-later, higher_priority_total, higher_priority_trans,
}
use roboppi.Scheduler.JobQueue.Line.{insert_job}

-- Texts can be compared, so equal entries are equal in one way.
text_discrete : Discrete String
text_discrete a b = elim (Bool-cases (str_eq a b)) [
  | inl e ↦ yes ((eq_iff a b).0 e)
  | inr e ↦ no (λ p. ground (arith, eq_iff a b))
]

text_set : IsSet String
text_set = hedberg text_discrete

pub entry_set : IsSet HeapEntry
entry_set = hlevel text_set

module _ (P : HeapEntry → Type 0) (p : (x : HeapEntry) → IsProp (P x)) where
  pub All-mem : (a : HeapEntry) (xs : List HeapEntry) → All P xs → Mem a xs → P a
  All-mem a [] h m = absurd (not-mem-nil m)
  All-mem a (x ∷ xs) h m =
      Or.elim (p a) (mem-cons.0 m) (λ e. subst P (sym e) h.0) (λ t. All-mem a xs h.1 t)

-- The jobs of a list of entries.
unfoldable pub jobs_of : List HeapEntry → List Job
jobs_of [] = []
jobs_of (x ∷ xs) = x.job ∷ jobs_of xs

pub length-jobs_of : (xs : List HeapEntry) → length (jobs_of xs) ≡ length xs
unfolding jobs_of
length-jobs_of [] = refl
length-jobs_of (x ∷ xs) = ap suc (length-jobs_of xs)

-- The entries in the order in which they leave.
abbrev pub Sorted : List HeapEntry → Type 0
Sorted [] = Unit
Sorted (x ∷ xs) = All (λ y. higher_priority x y ≡ true) xs × Sorted xs

unfoldable pub insert_entry : HeapEntry → List HeapEntry → List HeapEntry
insert_entry e [] = e ∷ []
insert_entry e (x ∷ xs) =
    let rest = insert_entry e xs in
    if outranks e.job.priority x.job.priority then e ∷ x ∷ xs else x ∷ rest

pub All-insert_entry :
    (P : HeapEntry → Type 0) (e : HeapEntry) (xs : List HeapEntry)
    → P e
    → All P xs
    → All P (insert_entry e xs)
unfolding insert_entry
All-insert_entry P e [] p h = (p, tt)
All-insert_entry P e (x ∷ xs) p h = elim (Bool-cases (outranks e.job.priority x.job.priority)) [
  | inl go ↦ rw go (p, h)
  | inr stop ↦ rw stop (h.0, All-insert_entry P e xs p h.1)
]

pub insert_entry-Perm : (e : HeapEntry) (xs : List HeapEntry) → Perm (insert_entry e xs) (e ∷ xs)
unfolding insert_entry
insert_entry-Perm e [] = Perm.refl (e ∷ [])
insert_entry-Perm e (x ∷ xs) = elim (Bool-cases (outranks e.job.priority x.job.priority)) [
  | inl go ↦ rw go (Perm.refl (e ∷ x ∷ xs))
  | inr stop ↦ rw stop (Perm.trans (Perm.cons x (insert_entry-Perm e xs)) (Perm.swap e x xs))
]

All-higher_trans :
    (e x : HeapEntry) (xs : List HeapEntry)
    → higher_priority e x ≡ true
    → All (λ y. higher_priority x y ≡ true) xs
    → All (λ y. higher_priority e y ≡ true) xs
All-higher_trans e x [] p h = tt
All-higher_trans e x (y ∷ xs) p h =
    (higher_priority_trans e x y p h.0, All-higher_trans e x xs p h.1)

pub insert_entry-Sorted :
    (e : HeapEntry) (xs : List HeapEntry)
    → Sorted xs
    → All (λ x. ltb x.seq e.seq ≡ true) xs
    → Sorted (insert_entry e xs)
unfolding insert_entry
insert_entry-Sorted e [] s h = (tt, tt)
insert_entry-Sorted e (x ∷ xs) s h = elim (Bool-cases (outranks e.job.priority x.job.priority)) [
  | inl go ↦
      let up : higher_priority e x ≡ true = higher_priority-later e x h.0 ∙ go in
      rw go ((up, All-higher_trans e x xs up s.0), s)
  | inr stop ↦
      let down : higher_priority x e ≡ true =
        higher_priority_total e x (λ p. ground arith) (higher_priority-later e x h.0 ∙ stop) in
      rw stop (
        All-insert_entry (λ y. higher_priority x y ≡ true) e xs down s.0,
        insert_entry-Sorted e xs s.1 h.1,
      )
]

pub jobs_of-insert_entry :
    (e : HeapEntry) (xs : List HeapEntry)
    → jobs_of (insert_entry e xs) ≡ insert_job e.job (jobs_of xs)
unfolding insert_entry insert_job jobs_of
jobs_of-insert_entry e [] = refl
jobs_of-insert_entry e (x ∷ xs) = elim (Bool-cases (outranks e.job.priority x.job.priority)) [
  | inl go ↦ rw go refl
  | inr stop ↦ rw stop (ap (λ t. x.job ∷ t) (jobs_of-insert_entry e xs))
]
