-- ===== src/Scheduler/JobQueue/Order.antt =====
-- The order in which jobs leave the queue.
use roboppi.Base.{ℕ, ◌≡◌, ◌≢◌, Bool, true, false, arith, ltb, ◌==◌, if◌then◌else◌}
use roboppi.Types.{Priority, PriorityClass, interactive, batch}
use roboppi.Scheduler.JobQueue.{HeapEntry, is_interactive, same_class, higher_priority}

-- A job goes before another that came earlier only if its class or, in the same class, its value is
-- higher.
abbrev pub outranks : Priority → Priority → Bool
outranks p q = if same_class p.class q.class then ltb q.value p.value else is_interactive p.class

lex_asym :
    (c d : PriorityClass) (v w s t : ℕ)
    → (if same_class c d then (if v == w then ltb s t else ltb w v) else is_interactive c) ≡ true
    → (if same_class d c then (if w == v then ltb t s else ltb v w) else is_interactive d) ≡ false
lex_asym interactive interactive v w s t h = ground arith
lex_asym interactive batch v w s t h = ground arith
lex_asym batch interactive v w s t h = ground arith
lex_asym batch batch v w s t h = ground arith

pub higher_priority_asym :
    (a b : HeapEntry) → higher_priority a b ≡ true → higher_priority b a ≡ false
unfolding higher_priority
higher_priority_asym a b h =
    lex_asym a.job.priority.class b.job.priority.class a.job.priority.value b.job.priority.value
      a.seq b.seq h

pub higher_priority_trans :
    (a b c : HeapEntry)
    → higher_priority a b ≡ true
    → higher_priority b c ≡ true
    → higher_priority a c ≡ true
unfolding higher_priority
higher_priority_trans a b c h k = ground arith

pub not_higher_trans :
    (a b c : HeapEntry)
    → higher_priority a b ≡ false
    → higher_priority b c ≡ false
    → higher_priority a c ≡ false
unfolding higher_priority
not_higher_trans a b c h k = ground arith

pub higher_priority_total :
    (a b : HeapEntry) → a.seq ≢ b.seq → higher_priority a b ≡ false → higher_priority b a ≡ true
unfolding higher_priority
higher_priority_total a b n h = ground arith

-- A later entry goes before an earlier one exactly if its job outranks the other's.
pub higher_priority-later :
    (a b : HeapEntry)
    → (ltb b.seq a.seq) ≡ true
    → higher_priority a b ≡ outranks a.job.priority b.job.priority
unfolding higher_priority
higher_priority-later a b h = ground arith
