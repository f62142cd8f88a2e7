-- ===== src/Worker/WorkspaceLock/Handover.antt =====
-- Who gets the lock of src/worker/workspace-lock.ts when it is free.
use roboppi.Base.{
  ℕ, ◌-◌, String, str_eq, eq_refl, ◌≡◌, refl, ap, ◌∙◌, true, Option, none, some, List, [], ◌∷◌,
  ◌++◌, arith, if◌then◌else◌, or_default,
}
use roboppi.Base.Dict.{Dict, get-set, get-delete}
use roboppi.Base.Dict
use roboppi.Worker.WorkspaceLock.{
  LockEntry, Waiter, WorkspaceLock, queue_of, put_queue, is_expired, take_lock, resolve, on_release,
  notify_waiters, hand_over, acquire_with, acquire_nested, acquire, release,
}

pub queue-put_queue :
    (ref other : String) (ws : List Waiter) (s : WorkspaceLock)
    → queue_of other (put_queue ref ws s) ≡ (if str_eq ref other then ws else queue_of other s)
unfolding put_queue
queue-put_queue ref other [] s = ground (arith, get-delete ref other s.waiters)
queue-put_queue ref other (w ∷ ws) s = ground (arith, get-set ref other (w ∷ ws) s.waiters)

acquire_with_free :
    (duration : Option ℕ) (ref task_id : String) (now : ℕ) (s : WorkspaceLock) (rounds : ℕ)
    → Dict.get ref s.locks ≡ none
    → acquire_with (acquire_nested rounds) duration ref task_id now s
      ≡ (true, take_lock duration ref task_id now s)
unfolding acquire_with
acquire_with_free duration ref task_id now s rounds h = rw (h, acquire_with) refl

-- A waiter that is notified when its workspace is free gets the lock.
on_release_free :
    (ref : String) (w : Waiter) (now : ℕ) (s : WorkspaceLock)
    → Dict.get ref s.locks ≡ none
    → on_release (acquire_nested 1) ref w now s
      ≡ resolve w.id true ref (now - w.start_time) (take_lock none ref w.task_id now s)
unfolding on_release acquire_nested
on_release_free ref w now s h = rw (acquire_with_free none ref w.task_id now s 0 h) refl

-- The state with the lock deleted and the first waiter gone.
abbrev pub freed : String → List Waiter → WorkspaceLock → WorkspaceLock
freed ref ws s = put_queue ref ws (record s { locks = Dict.delete ref s.locks })

pub locks-put_queue :
    (ref : String) (ws : List Waiter) (s : WorkspaceLock) → (put_queue ref ws s).locks ≡ s.locks
unfolding put_queue
locks-put_queue ref [] s = refl
locks-put_queue ref (w ∷ ws) s = refl

freed_free :
    (ref : String) (ws : List Waiter) (s : WorkspaceLock)
    → Dict.get ref (freed ref ws s).locks ≡ none
freed_free ref ws s =
    ap (Dict.get ref) (locks-put_queue ref ws (record s { locks = Dict.delete ref s.locks }))
    ∙ get-delete ref ref s.locks
    ∙ ap (λ b. if b then none else Dict.get ref s.locks) (eq_refl ref)

-- The first waiter gets the lock and is told so.
pub hand_over_waiter :
    (ref : String) (w : Waiter) (ws : List Waiter) (now : ℕ) (s : WorkspaceLock)
    → queue_of ref s ≡ w ∷ ws
    → hand_over (acquire_nested 1) ref now s
      ≡ resolve w.id true ref
          (now - w.start_time)
          (take_lock none ref w.task_id now (freed ref ws s))
unfolding hand_over notify_waiters
hand_over_waiter ref w ws now s h =
    rw (h, notify_waiters) (on_release_free ref w now (freed ref ws s) (freed_free ref ws s))

pub hand_over_nobody :
    (ref : String) (now : ℕ) (s : WorkspaceLock)
    → queue_of ref s ≡ []
    → hand_over (acquire_nested 1) ref now s ≡ record s { locks = Dict.delete ref s.locks }
unfolding hand_over notify_waiters
hand_over_nobody ref now s h = rw (h, notify_waiters) refl

-- The holder of a workspace.
abbrev pub holder_in : Option LockEntry → Option String
holder_in none = none
holder_in (some e) = some e.holder

abbrev pub holder_of : String → WorkspaceLock → Option String
holder_of ref s = holder_in (Dict.get ref s.locks)

resolved-put_queue :
    (ref : String) (ws : List Waiter) (s : WorkspaceLock)
    → (put_queue ref ws s).resolved ≡ s.resolved
unfolding put_queue
resolved-put_queue ref [] s = refl
resolved-put_queue ref (w ∷ ws) s = refl

pub acquire_expired :
    (duration : Option ℕ) (ref task_id : String) (now : ℕ) (s : WorkspaceLock) (e : LockEntry)
    → Dict.get ref s.locks ≡ some e
    → is_expired e now ≡ true
    → acquire duration ref task_id now s
      ≡ (true, take_lock duration ref task_id now (hand_over (acquire_nested 1) ref now s))
unfolding acquire acquire_with
acquire_expired duration ref task_id now s e held late = rw (held, acquire_with, late) refl

pub holder-take_lock :
    (duration : Option ℕ) (ref task_id : String) (now : ℕ) (s : WorkspaceLock)
    → holder_of ref (take_lock duration ref task_id now s) ≡ some task_id
unfolding take_lock
holder-take_lock duration ref task_id now s =
    let entry : LockEntry = record {
      holder = task_id;
      acquired_at = now;
      max_lock_duration_ms = or_default duration s.default_max_lock_duration_ms;
    } in
    ap holder_in (
      get-set ref ref entry s.locks
      ∙ ap (λ b. if b then some entry else Dict.get ref s.locks) (eq_refl ref))

resolved-hand_over :
    (ref : String) (w : Waiter) (ws : List Waiter) (now : ℕ) (s : WorkspaceLock)
    → queue_of ref s ≡ w ∷ ws
    → (hand_over (acquire_nested 1) ref now s).resolved ≡ s.resolved ++ (w.id, true) ∷ []
unfolding resolve take_lock
resolved-hand_over ref w ws now s waiting =
    ap (λ t. t.resolved) (hand_over_waiter ref w ws now s waiting)
    ∙ ap (λ r. r ++ (w.id, true) ∷ [])
        (resolved-put_queue ref ws (record s { locks = Dict.delete ref s.locks }))

-- If a lock has expired while others wait, a task that then acquires it is told that it has it, and so
-- is the first waiter: its promise is settled with `true` in the same call, though the task is the holder.
pub two_holders :
    (duration : Option ℕ) (ref task_id : String) (now : ℕ) (s : WorkspaceLock) (e : LockEntry)
    (w : Waiter) (ws : List Waiter)
    → Dict.get ref s.locks ≡ some e
    → is_expired e now ≡ true
    → queue_of ref s ≡ w ∷ ws
    → ((acquire duration ref task_id now s).0 ≡ true)
      × ((acquire duration ref task_id now s).1.resolved ≡ s.resolved ++ (w.id, true) ∷ [])
      × (holder_of ref (acquire duration ref task_id now s).1 ≡ some task_id)
unfolding take_lock
two_holders duration ref task_id now s e w ws held late waiting =
    let taken = acquire_expired duration ref task_id now s e held late in
    (
      ap (λ r. r.0) taken,
      ap (λ r. r.1.resolved) taken ∙ resolved-hand_over ref w ws now s waiting,
      ap (λ r. holder_of ref r.1) taken
          ∙ holder-take_lock duration ref task_id now (hand_over (acquire_nested 1) ref now s),
    )

waiters-take_lock :
    (ref : String) (w : Waiter) (now : ℕ) (ws : List Waiter) (s : WorkspaceLock)
    → (take_lock none ref w.task_id now (freed ref ws s)).waiters ≡ (freed ref ws s).waiters
unfolding take_lock
waiters-take_lock ref w now ws s = refl

-- A release by the holder gives the lock to the first waiter and tells it so; the others go on waiting.
release_hands_over :
    (ref task_id : String) (now : ℕ) (s : WorkspaceLock) (e : LockEntry) (w : Waiter)
    (ws : List Waiter)
    → Dict.get ref s.locks ≡ some e
    → e.holder ≡ task_id
    → queue_of ref s ≡ w ∷ ws
    → ((release ref task_id now s).0 ≡ true)
      × (holder_of ref (release ref task_id now s).1 ≡ some w.task_id)
      × ((release ref task_id now s).1.resolved ≡ s.resolved ++ (w.id, true) ∷ [])
      × (queue_of ref (release ref task_id now s).1 ≡ ws)
unfolding release resolve
release_hands_over ref task_id now s e w ws held own waiting =
    let done : release ref task_id now s ≡ (true, hand_over (acquire_nested 1) ref now s) =
      rw (held, release, own, eq_refl task_id) refl in
    let handed = hand_over_waiter ref w ws now s waiting in
    (
      ap (λ r. r.0) done,
      ap (λ r. holder_of ref r.1) done
          ∙ ap (holder_of ref) handed
          ∙ holder-take_lock none ref w.task_id now (freed ref ws s),
      ap (λ r. r.1.resolved) done ∙ resolved-hand_over ref w ws now s waiting,
      ap (λ r. queue_of ref r.1) done
          ∙ ap (queue_of ref) handed
          ∙ ap (λ q. or_default (Dict.get ref q) []) (waiters-take_lock ref w now ws s)
          ∙ queue-put_queue ref ref ws (record s { locks = Dict.delete ref s.locks })
          ∙ ap (λ b. if b then ws else queue_of ref s) (eq_refl ref),
    )
