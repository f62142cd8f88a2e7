-- ===== src/Worker/WorkspaceLock.antt =====
-- src/worker/workspace-lock.ts. A promise that waits is a waiter with a number of its own; `resolved` lists
-- the promises of `waitForLock` that were settled, with their answers. A call reads the clock once. A
-- waiter is settled exactly if it has left its queue.
pub mod Handover
pub mod Elsewhere
pub mod Waiting
mod Examples
use roboppi.Base.{
  ℕ, zero, suc, ◌+◌, ◌-◌, String, str_eq, Bool, true, false, ◌&&◌, Option, none, some, List, [],
  ◌∷◌, ◌++◌, ltb, leb, ◌==◌, if◌then◌else◌, or_default,
}
use roboppi.Base.Dict.{Dict}
use roboppi.Base.Dict

pub record LockEntry : Type 0 where
  pub holder : String
  pub acquired_at : ℕ
  pub max_lock_duration_ms : ℕ

pub record Waiter : Type 0 where
  pub id : ℕ
  pub task_id : String
  pub start_time : ℕ
  pub due : ℕ

pub record WorkspaceLock : Type 0 where
  pub locks : Dict LockEntry
  pub wait_times : Dict ℕ
  pub waiters : Dict (List Waiter)
  pub default_max_lock_duration_ms : ℕ
  pub resolved : List (ℕ × Bool)
  pub next_id : ℕ

unfoldable pub new : Option ℕ → WorkspaceLock
new max_lock_duration_ms = record {
  locks = [];
  wait_times = [];
  waiters = [];
  default_max_lock_duration_ms = or_default max_lock_duration_ms 300000;
  resolved = [];
  next_id = 0;
}

abbrev pub queue_of : String → WorkspaceLock → List Waiter
queue_of ref s = or_default (Dict.get ref s.waiters) []

-- An empty queue is deleted.
unfoldable pub put_queue : String → List Waiter → WorkspaceLock → WorkspaceLock
put_queue ref [] s = record s { waiters = Dict.delete ref s.waiters }
put_queue ref (w ∷ ws) s = record s { waiters = Dict.set ref (w ∷ ws) s.waiters }

abbrev pub is_expired : LockEntry → ℕ → Bool
is_expired e now = ltb (e.acquired_at + e.max_lock_duration_ms) now

-- The end of `acquire`.
unfoldable pub take_lock : Option ℕ → String → String → ℕ → WorkspaceLock → WorkspaceLock
take_lock duration ref task_id now s = record s {
  locks =
      Dict.set ref
        (record {
          holder = task_id;
          acquired_at = now;
          max_lock_duration_ms = or_default duration s.default_max_lock_duration_ms;
        })
        s.locks;
}

-- `acquire` of a workspace for a task, without a duration.
abbrev pub Acquire : Type 0
Acquire = String → String → ℕ → WorkspaceLock → Bool × WorkspaceLock

unfoldable pub resolve : ℕ → Bool → String → ℕ → WorkspaceLock → WorkspaceLock
resolve id answer ref waited s = record s {
  wait_times = Dict.set ref waited s.wait_times;
  resolved = s.resolved ++ (id, answer) ∷ [];
}

-- The callback of a waiter that has left the queue.
unfoldable pub on_release : Acquire → String → Waiter → ℕ → WorkspaceLock → WorkspaceLock
on_release acquires ref w now s =
    let (taken, after) = acquires ref w.task_id now s in
    if taken
    then resolve w.id true ref (now - w.start_time) after
    else record after { waiters = Dict.set ref (queue_of ref after ++ w ∷ []) after.waiters }

unfoldable pub notify_waiters : Acquire → String → ℕ → WorkspaceLock → WorkspaceLock
notify_waiters acquires ref now s = elim (queue_of ref s) [
  | [] ↦ s
  | w ∷ ws ↦ on_release acquires ref w now (put_queue ref ws s)
]

-- The lock is deleted and a waiter is notified.
unfoldable pub hand_over : Acquire → String → ℕ → WorkspaceLock → WorkspaceLock
hand_over acquires ref now s =
    notify_waiters acquires ref now (record s { locks = Dict.delete ref s.locks })

unfoldable pub acquire_with :
    Acquire → Option ℕ → String → String → ℕ → WorkspaceLock → Bool × WorkspaceLock
acquire_with acquires duration ref task_id now s = elim (Dict.get ref s.locks) [
  | none ↦ (true, take_lock duration ref task_id now s)
  | some e ↦
      let over = take_lock duration ref task_id now (hand_over acquires ref now s) in
      if is_expired e now then (true, over) else (false, s)
]

-- The `acquire` that a waiter calls. It finds the workspace free, so it does not notify in its turn, and
-- one round is enough.
unfoldable pub acquire_nested : ℕ → Acquire
acquire_nested zero ref task_id now s = (false, s)
acquire_nested (suc rounds) ref task_id now s =
    acquire_with (acquire_nested rounds) none ref task_id now s

unfoldable pub acquire : Option ℕ → String → String → ℕ → WorkspaceLock → Bool × WorkspaceLock
acquire duration ref task_id now s = acquire_with (acquire_nested 1) duration ref task_id now s

unfoldable pub force_release : String → ℕ → WorkspaceLock → Bool × WorkspaceLock
force_release ref now s = elim (Dict.get ref s.locks) [
  | none ↦ (false, s)
  | some e ↦ (true, hand_over (acquire_nested 1) ref now s)
]

unfoldable pub release : String → String → ℕ → WorkspaceLock → Bool × WorkspaceLock
release ref task_id now s = elim (Dict.get ref s.locks) [
  | none ↦ (false, s)
  | some e ↦
      if str_eq e.holder task_id then (true, hand_over (acquire_nested 1) ref now s) else (false, s)
]

unfoldable pub is_locked : String → ℕ → WorkspaceLock → Bool × WorkspaceLock
is_locked ref now s = elim (Dict.get ref s.locks) [
  | none ↦ (false, s)
  | some e ↦ if is_expired e now then (false, hand_over (acquire_nested 1) ref now s) else (true, s)
]

abbrev pub counted : WorkspaceLock → WorkspaceLock
counted s = record s { next_id = s.next_id + 1 }

unfoldable pub wait_for_lock : String → String → ℕ → ℕ → WorkspaceLock → WorkspaceLock
wait_for_lock ref task_id timeout_ms now s =
    let (taken, after) = acquire none ref task_id now s in
    let waiter : Waiter = record {
      id = s.next_id;
      task_id = task_id;
      start_time = now;
      due = now + timeout_ms;
    } in
    counted (
      if taken then resolve s.next_id true ref 0 after else record after {
        waiters = Dict.set ref (queue_of ref after ++ waiter ∷ []) after.waiters;
      })

-- The waiter of a number whose timer is due, and the others.
unfoldable pub split_due : ℕ → ℕ → List Waiter → Option (Waiter × List Waiter)
split_due id now [] = none
split_due id now (w ∷ ws) =
    let rest = split_due id now ws in
    if w.id == id && leb w.due now
    then some (w, ws)
    else elim rest [ none ↦ none | some (v, vs) ↦ some (v, w ∷ vs) ]

-- The callback of a waiter's timer; the timer of a settled waiter does nothing.
unfoldable pub time_out : String → ℕ → ℕ → WorkspaceLock → WorkspaceLock
time_out ref id now s = elim (split_due id now (queue_of ref s)) [
  | none ↦ s
  | some (w, ws) ↦ resolve id false ref (now - w.start_time) (put_queue ref ws s)
]

unfoldable pub get_wait_time_ms : String → WorkspaceLock → ℕ
get_wait_time_ms ref s = or_default (Dict.get ref s.wait_times) 0

-- The calls of a lock, and the timers.
pub data Call : Type 0 where
  acquires : (duration : Option ℕ) (ref task_id : String) (now : ℕ) → Call
  releases : (ref task_id : String) (now : ℕ) → Call
  force_releases asks : (ref : String) (now : ℕ) → Call
  waits : (ref task_id : String) (timeout_ms now : ℕ) → Call
  times_out : (ref : String) (id now : ℕ) → Call

unfoldable pub step : Call → WorkspaceLock → WorkspaceLock
step (acquires duration ref task_id now) s = (acquire duration ref task_id now s).1
step (releases ref task_id now) s = (release ref task_id now s).1
step (force_releases ref now) s = (force_release ref now s).1
step (asks ref now) s = (is_locked ref now s).1
step (waits ref task_id timeout_ms now) s = wait_for_lock ref task_id timeout_ms now s
step (times_out ref id now) s = time_out ref id now s

unfoldable pub run : List Call → WorkspaceLock → WorkspaceLock
run [] s = s
run (c ∷ cs) s = run cs (step c s)
