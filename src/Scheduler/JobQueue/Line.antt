-- ===== src/Scheduler/JobQueue/Line.antt =====
-- The calls of src/scheduler/job-queue.ts, on the queue and on a list of jobs in the order in which
-- they leave.
use roboppi.Base.{ℕ, Option, none, some, List, [], ◌∷◌, if◌then◌else◌, length}
use roboppi.Types.{Job}
use roboppi.Scheduler.JobQueue.{JobQueue, enqueue, dequeue, peek, size}
use roboppi.Scheduler.JobQueue.Order.{outranks}

-- The calls of a queue, and what a caller sees after one.
pub data Call : Type 0 where
  put : Job → Call
  take : Call

pub record View : Type 0 where
  pub answer : Option Job
  pub first : Option Job
  pub count : ℕ

-- The answer of `take`, and the queue after it.
unfoldable pub take_from : JobQueue → Option (Job × JobQueue) → Option Job × JobQueue
take_from q none = (none, q)
take_from q (some (job, after)) = (some job, after)

unfoldable pub call : Call → JobQueue → Option Job × JobQueue
call (put job) q = (none, enqueue job q)
call take q = take_from q (dequeue q)

unfoldable pub view_of : Option Job × JobQueue → View
view_of (a, q) = record { answer = a; first = peek q; count = size q }

unfoldable pub views : JobQueue → List Call → List View
views q [] = []
views q (c ∷ cs) = view_of (call c q) ∷ views (call c q).1 cs

-- The reference: a job goes in front of the first job that it outranks, and jobs leave at the front.
unfoldable pub insert_job : Job → List Job → List Job
insert_job job [] = job ∷ []
insert_job job (x ∷ xs) =
    let rest = insert_job job xs in
    if outranks job.priority x.priority then job ∷ x ∷ xs else x ∷ rest

unfoldable pub line_call : Call → List Job → Option Job × List Job
line_call (put job) js = (none, insert_job job js)
line_call take [] = (none, [])
line_call take (x ∷ xs) = (some x, xs)

unfoldable pub front : List Job → Option Job
front [] = none
front (x ∷ xs) = some x

unfoldable pub line_view : Option Job × List Job → View
line_view (a, js) = record { answer = a; first = front js; count = length js }

unfoldable pub line_views : List Job → List Call → List View
line_views js [] = []
line_views js (c ∷ cs) = line_view (line_call c js) ∷ line_views (line_call c js).1 cs
