-- ===== src/Worker/WorkspaceLock/Waiting.antt =====
-- Nobody waits for a free workspace in src/worker/workspace-lock.ts.
use roboppi.Base.{
  ℕ, ◌+◌, ◌-◌, String, str_eq, ◌≡◌, refl, ap, sym, ◌∙◌, Bool, true, false, Option, none, List, [],
  ◌∷◌, ◌++◌, arith, Bool-cases, Option-cases, inl, inr,
}
use roboppi.Base.Dict.{Dict, get-set, get-delete}
use roboppi.Base.Dict
use roboppi.Worker.WorkspaceLock.{
  Waiter, WorkspaceLock, new, queue_of, put_queue, is_expired, take_lock, resolve, hand_over,
  acquire_with, acquire_nested, acquire, force_release, release, is_locked, wait_for_lock,
  split_due, time_out, Call, acquires, releases, force_releases, asks, waits, times_out, step, run,
}
use roboppi.Worker.WorkspaceLock.Handover.{
  locks-put_queue, freed, hand_over_waiter, hand_over_nobody,
}
use roboppi.Worker.WorkspaceLock.Elsewhere.{
  IsHandedOver, Elsewhere, stays, and_then, take_lock-Elsewhere, resolve-Elsewhere,
  put_queue-Elsewhere, delete-Elsewhere, set-Elsewhere, IsLocked, take_lock-IsLocked,
  Elsewhere-IsHandedOver, queue-cases,
}

-- What a call on a workspace that keeps the invariant does.
record Keeps (ref : String) (s t : WorkspaceLock) : Type 0 where
  elsewhere : Elsewhere ref s t
  here : Dict.get ref t.locks ≡ none → queue_of ref t ≡ []

take_lock-Keeps :
    (duration : Option ℕ) (ref task_id : String) (now : ℕ) (s t : WorkspaceLock)
    → Elsewhere ref s t
    → Keeps ref s (take_lock duration ref task_id now t)
take_lock-Keeps duration ref task_id now s t e = record {
  elsewhere =
      and_then ref s t (take_lock duration ref task_id now t) e
        (take_lock-Elsewhere duration ref task_id now t);
  here = λ h. absurd (take_lock-IsLocked duration ref task_id now t h);
}

resolve-Keeps :
    (id : ℕ) (answer : Bool) (ref : String) (waited : ℕ) (s t : WorkspaceLock)
    → Keeps ref s t
    → Keeps ref s (resolve id answer ref waited t)
unfolding resolve
resolve-Keeps id answer ref waited s t k = record {
  elsewhere =
      and_then ref s t (resolve id answer ref waited t) k.elsewhere
        (resolve-Elsewhere id answer ref waited t);
  here = k.here;
}

hand_over-Keeps :
    (ref : String) (now : ℕ) (s : WorkspaceLock)
    → Keeps ref s (hand_over (acquire_nested 1) ref now s)
hand_over-Keeps ref now s = elim (queue-cases (queue_of ref s)) [
  | inl nobody ↦
      rw (hand_over_nobody ref now s nobody)
        (record { elsewhere = delete-Elsewhere ref s; here = λ h. nobody })
  | inr (w, ws, waiting) ↦
      let deleted = record s { locks = Dict.delete ref s.locks } in
      rw (hand_over_waiter ref w ws now s waiting) (
        resolve-Keeps w.id true ref (now - w.start_time) s
          (take_lock none ref w.task_id now (freed ref ws s))
          (take_lock-Keeps none ref w.task_id now s (freed ref ws s) (
            and_then ref s deleted (freed ref ws s) (delete-Elsewhere ref s)
              (put_queue-Elsewhere ref ws deleted))))
]

-- After an `acquire` the workspace is locked, by whomever.
record Locks (ref : String) (s t : WorkspaceLock) : Type 0 where
  elsewhere : Elsewhere ref s t
  locked : IsLocked ref t

acquire-Locks :
    (duration : Option ℕ) (ref task_id : String) (now : ℕ) (s : WorkspaceLock)
    → Locks ref s (acquire duration ref task_id now s).1
unfolding acquire acquire_with
acquire-Locks duration ref task_id now s = elim (Option-cases (Dict.get ref s.locks)) [
  | inl free ↦
      rw (free, acquire_with)
        (record {
          elsewhere = take_lock-Elsewhere duration ref task_id now s;
          locked = take_lock-IsLocked duration ref task_id now s;
        })
  | inr (e, held) ↦ elim (Bool-cases (is_expired e now)) [
    | inl late ↦
        let over = hand_over (acquire_nested 1) ref now s in
        rw (held, acquire_with, late)
          (record {
            elsewhere =
                (take_lock-Keeps duration ref task_id now s over
                  (hand_over-Keeps ref now s).elsewhere).elsewhere;
            locked = take_lock-IsLocked duration ref task_id now over;
          })
    | inr valid ↦
        rw (held, acquire_with, valid)
          (record { elsewhere = stays ref s; locked = λ h. ground (arith, held, h) })
  ]
]

stays-Keeps : (ref : String) (s : WorkspaceLock) → IsHandedOver s → Keeps ref s s
stays-Keeps ref s h = record { elsewhere = stays ref s; here = h ref }

release-Keeps :
    (ref task_id : String) (now : ℕ) (s : WorkspaceLock)
    → IsHandedOver s
    → Keeps ref s (release ref task_id now s).1
unfolding release
release-Keeps ref task_id now s h = elim (Option-cases (Dict.get ref s.locks)) [
  | inl free ↦ rw (free, release) (stays-Keeps ref s h)
  | inr (e, held) ↦ elim (Bool-cases (str_eq e.holder task_id)) [
    | inl own ↦ rw (held, release, own) (hand_over-Keeps ref now s)
    | inr other ↦ rw (held, release, other) (stays-Keeps ref s h)
  ]
]

force_release-Keeps :
    (ref : String) (now : ℕ) (s : WorkspaceLock)
    → IsHandedOver s
    → Keeps ref s (force_release ref now s).1
unfolding force_release
force_release-Keeps ref now s h = elim (Option-cases (Dict.get ref s.locks)) [
  | inl free ↦ rw (free, force_release) (stays-Keeps ref s h)
  | inr (e, held) ↦ rw (held, force_release) (hand_over-Keeps ref now s)
]

is_locked-Keeps :
    (ref : String) (now : ℕ) (s : WorkspaceLock)
    → IsHandedOver s
    → Keeps ref s (is_locked ref now s).1
unfolding is_locked
is_locked-Keeps ref now s h = elim (Option-cases (Dict.get ref s.locks)) [
  | inl free ↦ rw (free, is_locked) (stays-Keeps ref s h)
  | inr (e, held) ↦ elim (Bool-cases (is_expired e now)) [
    | inl late ↦ rw (held, is_locked, late) (hand_over-Keeps ref now s)
    | inr valid ↦ rw (held, is_locked, valid) (stays-Keeps ref s h)
  ]
]

wait_for_lock-Keeps :
    (ref task_id : String) (timeout_ms now : ℕ) (s : WorkspaceLock)
    → Keeps ref s (wait_for_lock ref task_id timeout_ms now s)
unfolding wait_for_lock resolve
wait_for_lock-Keeps ref task_id timeout_ms now s =
    let a = acquire-Locks none ref task_id now s in
    let after = (acquire none ref task_id now s).1 in
    elim (Bool-cases (acquire none ref task_id now s).0) [
      | inl taken ↦ rw taken (record {
        elsewhere = record { locks = a.elsewhere.locks; queues = a.elsewhere.queues };
        here = λ h. absurd (a.locked h);
      })
      | inr refused ↦
          let w : Waiter = record {
            id = s.next_id;
            task_id = task_id;
            start_time = now;
            due = now + timeout_ms;
          } in
          let e = set-Elsewhere ref (queue_of ref after ++ w ∷ []) after in
          rw refused (record {
            elsewhere = record {
              locks = a.elsewhere.locks;
              queues = λ o n. e.queues o n ∙ a.elsewhere.queues o n;
            };
            here = λ h. absurd (a.locked h);
          })
    ]

time_out-Keeps :
    (ref : String) (id now : ℕ) (s : WorkspaceLock)
    → IsHandedOver s
    → Keeps ref s (time_out ref id now s)
unfolding time_out split_due
time_out-Keeps ref id now s h = elim (Option-cases (split_due id now (queue_of ref s))) [
  | inl nobody ↦ rw (nobody, time_out) (stays-Keeps ref s h)
  | inr ((w, ws), found) ↦
      rw (found, time_out)
        (resolve-Keeps id false ref (now - w.start_time) s (put_queue ref ws s) (record {
          elsewhere = put_queue-Elsewhere ref ws s;
          here = λ free.
              let empty : queue_of ref s ≡ [] =
                h ref (sym (ap (Dict.get ref) (locks-put_queue ref ws s)) ∙ free) in
              absurd (ground (arith, ap Dict.is_some (sym found ∙ ap (split_due id now) empty)));
        }))
]

step-IsHandedOver : (c : Call) (s : WorkspaceLock) → IsHandedOver s → IsHandedOver (step c s)
unfolding step
step-IsHandedOver (acquires duration ref task_id now) s h =
    let a = acquire-Locks duration ref task_id now s in
    Elsewhere-IsHandedOver ref s (acquire duration ref task_id now s).1 a.elsewhere
      (λ free. absurd (a.locked free)) h
step-IsHandedOver (releases ref task_id now) s h =
    let k = release-Keeps ref task_id now s h in
    Elsewhere-IsHandedOver ref s (release ref task_id now s).1 k.elsewhere k.here h
step-IsHandedOver (force_releases ref now) s h =
    let k = force_release-Keeps ref now s h in
    Elsewhere-IsHandedOver ref s (force_release ref now s).1 k.elsewhere k.here h
step-IsHandedOver (asks ref now) s h =
    let k = is_locked-Keeps ref now s h in
    Elsewhere-IsHandedOver ref s (is_locked ref now s).1 k.elsewhere k.here h
step-IsHandedOver (waits ref task_id timeout_ms now) s h =
    let k = wait_for_lock-Keeps ref task_id timeout_ms now s in
    Elsewhere-IsHandedOver ref s (wait_for_lock ref task_id timeout_ms now s) k.elsewhere k.here h
step-IsHandedOver (times_out ref id now) s h =
    let k = time_out-Keeps ref id now s h in
    Elsewhere-IsHandedOver ref s (time_out ref id now s) k.elsewhere k.here h

run-IsHandedOver : (cs : List Call) (s : WorkspaceLock) → IsHandedOver s → IsHandedOver (run cs s)
unfolding run
run-IsHandedOver [] s h = h
run-IsHandedOver (c ∷ cs) s h = run-IsHandedOver cs (step c s) (step-IsHandedOver c s h)

-- After any calls and timers, a workspace for which somebody waits is locked: no release is lost.
pub run-new-IsHandedOver :
    (max_lock_duration_ms : Option ℕ) (cs : List Call)
    → IsHandedOver (run cs (new max_lock_duration_ms))
unfolding new Dict.get
run-new-IsHandedOver max_lock_duration_ms cs =
    run-IsHandedOver cs (new max_lock_duration_ms) (λ ref h. refl)
