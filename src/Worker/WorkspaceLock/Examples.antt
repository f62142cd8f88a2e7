-- ===== src/Worker/WorkspaceLock/Examples.antt =====
-- Two tasks that wait for a workspace of src/worker/workspace-lock.ts, and one that comes late.
use roboppi.Base.{ℕ, String, ◌≡◌, refl, Bool, true, false, Option, none, some, List, [], ◌∷◌, ◌++◌}
use roboppi.Worker.WorkspaceLock.{
  LockEntry, Waiter, WorkspaceLock, new, queue_of, acquire, release, Call, acquires, waits,
  releases, times_out, run,
}
use roboppi.Worker.WorkspaceLock.Handover.{holder_of, two_holders}
use roboppi.Worker.WorkspaceLock.Elsewhere.{IsHandedOver}
use roboppi.Worker.WorkspaceLock.Waiting.{run-new-IsHandedOver}

abbrev waiter : ℕ → String → Waiter
waiter n task = record { id = n; task_id = task; start_time = 10; due = 900 }

abbrev entry : LockEntry
entry = record { holder = "a"; acquired_at = 0; max_lock_duration_ms = 100 }

abbrev busy : WorkspaceLock
busy = record {
  locks = ("/w", entry) ∷ [];
  wait_times = [];
  waiters = ("/w", waiter 0 "b" ∷ waiter 1 "c" ∷ []) ∷ [];
  default_max_lock_duration_ms = 100;
  resolved = [];
  next_id = 2;
}

all_open : Unit {0}
unfolding roboppi.Base.Dict.get roboppi.Base.Dict.set roboppi.Base.Dict.delete
    roboppi.Worker.WorkspaceLock.new roboppi.Worker.WorkspaceLock.acquire
    roboppi.Worker.WorkspaceLock.acquire_with roboppi.Worker.WorkspaceLock.acquire_nested
    roboppi.Worker.WorkspaceLock.take_lock roboppi.Worker.WorkspaceLock.hand_over
    roboppi.Worker.WorkspaceLock.notify_waiters roboppi.Worker.WorkspaceLock.on_release
    roboppi.Worker.WorkspaceLock.resolve roboppi.Worker.WorkspaceLock.put_queue
    roboppi.Worker.WorkspaceLock.wait_for_lock roboppi.Worker.WorkspaceLock.release
    roboppi.Worker.WorkspaceLock.split_due roboppi.Worker.WorkspaceLock.time_out
    roboppi.Worker.WorkspaceLock.step roboppi.Worker.WorkspaceLock.run
all_open = tt

held : roboppi.Base.Dict.get "/w" busy.locks ≡ some entry
unfolding all_open
held = refl

waiting : queue_of "/w" busy ≡ waiter 0 "b" ∷ waiter 1 "c" ∷ []
unfolding all_open
waiting = refl

two_holders_example :
    ((acquire none "/w" "d" 101 busy).0 ≡ true)
    × ((acquire none "/w" "d" 101 busy).1.resolved ≡ busy.resolved ++ (0, true) ∷ [])
    × (holder_of "/w" (acquire none "/w" "d" 101 busy).1 ≡ some "d")
two_holders_example =
    two_holders none "/w" "d" 101 busy entry (waiter 0 "b") (waiter 1 "c" ∷ []) held refl waiting

abbrev calls : List Call
calls =
    acquires none "/w" "a" 0
    ∷ waits "/w" "b" 500 10
    ∷ waits "/w" "c" 30 10
    ∷ times_out "/w" 1 40
    ∷ releases "/w" "a" 60
    ∷ []

answers : (run calls (new none)).resolved ≡ (1, false) ∷ (0, true) ∷ []
unfolding all_open
answers = refl

run-new-IsHandedOver_example : IsHandedOver (run calls (new none))
run-new-IsHandedOver_example = run-new-IsHandedOver none calls
