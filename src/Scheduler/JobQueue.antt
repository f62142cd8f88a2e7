-- ===== src/Scheduler/JobQueue.antt =====
-- src/scheduler/job-queue.ts: a binary heap in an array. A read out of range, which
-- Rising and Sinking show not to happen, gives `nothing`; `(i - 1) >>> 1` is the half of `i - 1`.
pub mod Order
pub mod Arrays
pub mod Rising
pub mod Sinking
pub mod Sorted
pub mod Line
pub mod Entries
pub mod Refines
mod Examples
use roboppi.Base.{
  ℕ, zero, suc, ◌+◌, ◌-◌, ◌*◌, ◌/◌, Bool, true, false, not, ◌&&◌, Option, none, some, List, [], ◌∷◌,
  ◌++◌, ltb, ◌==◌, if◌then◌else◌, length, get_or, set,
}
use roboppi.Types.{Job, Priority, PriorityClass, interactive, batch, maintenance}

pub record HeapEntry : Type 0 where
  pub job : Job
  pub seq : ℕ

pub record JobQueue : Type 0 where
  pub heap : List HeapEntry
  pub seq : ℕ

abbrev pub new : JobQueue
new = record { heap = []; seq = 0 }

abbrev pub nothing : HeapEntry
nothing = record {
  job = record {
    job_id = "";
    type = maintenance;
    priority = record { value = 0; class = batch };
    key = none;
    payload = none;
    limits = record { timeout_ms = 0; max_attempts = 0; cost_hint = none; retry_budget_ms = none };
  };
  seq = 0;
}

abbrev pub at : List HeapEntry → ℕ → HeapEntry
at heap i = get_or heap i nothing

abbrev pub is_interactive : PriorityClass → Bool
is_interactive interactive = true
is_interactive batch = false

abbrev pub same_class : PriorityClass → PriorityClass → Bool
same_class interactive c = is_interactive c
same_class batch c = not (is_interactive c)

unfoldable pub higher_priority : HeapEntry → HeapEntry → Bool
higher_priority a b =
    let p = a.job.priority in
    let q = b.job.priority in
    if same_class p.class q.class
    then (if p.value == q.value then ltb a.seq b.seq else ltb q.value p.value)
    else is_interactive p.class

unfoldable pub swap : ℕ → ℕ → List HeapEntry → List HeapEntry
swap i j heap = set (set heap i (at heap j)) j (at heap i)

abbrev pub parent : ℕ → ℕ
parent i = (i - 1) / 2

-- The loop of `siftUp`; the index falls, so `i` rounds are enough.
unfoldable pub sift_up : ℕ → ℕ → List HeapEntry → List HeapEntry
sift_up zero i heap = heap
sift_up (suc rounds) i heap =
    let rise = sift_up rounds (parent i) (swap i (parent i) heap) in
    if ltb 0 i && higher_priority (at heap i) (at heap (parent i)) then rise else heap

-- The better of an index and a child of it that may not exist.
unfoldable pub better : List HeapEntry → ℕ → ℕ → ℕ
better heap child best =
    if ltb child (length heap) && higher_priority (at heap child) (at heap best)
    then child
    else best

unfoldable pub best_of : List HeapEntry → ℕ → ℕ
best_of heap i = better heap (2 * i + 2) (better heap (2 * i + 1) i)

-- The loop of `siftDown`; the index grows, so `length heap` rounds are enough.
unfoldable pub sift_down : ℕ → ℕ → List HeapEntry → List HeapEntry
sift_down zero i heap = heap
sift_down (suc rounds) i heap =
    let best = best_of heap i in
    let sink = sift_down rounds best (swap i best heap) in if best == i then heap else sink

unfoldable pub enqueue : Job → JobQueue → JobQueue
enqueue job q =
    let heap = q.heap ++ record { job = job; seq = q.seq } ∷ [] in
    record { heap = sift_up (length heap) (length heap - 1) heap; seq = q.seq + 1 }

-- `Array.pop` leaves all but the last entry.
unfoldable pub drop_last : List HeapEntry → List HeapEntry
drop_last [] = []
drop_last (x ∷ []) = []
drop_last (x ∷ y ∷ xs) = x ∷ drop_last (y ∷ xs)

-- The heap when its top is taken: the last entry moves to the top and sinks.
unfoldable pub remove_top : List HeapEntry → List HeapEntry
remove_top heap =
    let last = at heap (length heap - 1) in
    let rest = drop_last heap in
    if length rest == 0 then rest else sift_down (length rest) 0 (set rest 0 last)

unfoldable pub dequeue : JobQueue → Option (Job × JobQueue)
dequeue q = elim q.heap [
  | [] ↦ none
  | top ∷ rest ↦ some (top.job, record q { heap = remove_top q.heap })
]

unfoldable pub peek : JobQueue → Option Job
peek q = elim q.heap [ [] ↦ none | top ∷ rest ↦ some top.job ]

abbrev pub size : JobQueue → ℕ
size q = length q.heap

abbrev pub is_empty : JobQueue → Bool
is_empty q = length q.heap == 0
