-- ===== src/Worker/WorkspaceLock/Elsewhere.antt =====
-- What a step of src/worker/workspace-lock.ts leaves as it is.
use roboppi.Base.{
  ℕ, String, str_eq, eq_iff, ◌≡◌, ◌≢◌, refl, ap, sym, subst, ◌∙◌, ◌⊎◌, Bool, false, Option, none,
  some, List, [], ◌∷◌, arith, if◌then◌else◌, or_default, Bool-cases, inl, inr,
}
use roboppi.Base.Dict.{Dict, get-set, get-delete}
use roboppi.Base.Dict
use roboppi.Worker.WorkspaceLock.{Waiter, WorkspaceLock, queue_of, put_queue, take_lock, resolve}
use roboppi.Worker.WorkspaceLock.Handover.{
  queue-put_queue, locks-put_queue, holder_in, holder-take_lock,
}

-- Somebody waits only for a workspace that is locked.
abbrev pub IsHandedOver : WorkspaceLock → Type 0
IsHandedOver s = (ref : String) → Dict.get ref s.locks ≡ none → queue_of ref s ≡ []

-- A call on one workspace does not touch the others.
pub record Elsewhere (ref : String) (s t : WorkspaceLock) : Type 0 where
  pub locks : (o : String) → str_eq ref o ≡ false → Dict.get o t.locks ≡ Dict.get o s.locks
  pub queues : (o : String) → str_eq ref o ≡ false → queue_of o t ≡ queue_of o s

pub stays : (ref : String) (s : WorkspaceLock) → Elsewhere ref s s
stays ref s = record { locks = λ o n. refl; queues = λ o n. refl }

pub and_then :
    (ref : String) (s t u : WorkspaceLock)
    → Elsewhere ref s t
    → Elsewhere ref t u
    → Elsewhere ref s u
and_then ref s t u a b = record {
  locks = λ o n. b.locks o n ∙ a.locks o n;
  queues = λ o n. b.queues o n ∙ a.queues o n;
}

pub take_lock-Elsewhere :
    (duration : Option ℕ) (ref task_id : String) (now : ℕ) (s : WorkspaceLock)
    → Elsewhere ref s (take_lock duration ref task_id now s)
unfolding take_lock
take_lock-Elsewhere duration ref task_id now s = record {
  locks = λ o n.
      get-set ref o
        (record {
          holder = task_id;
          acquired_at = now;
          max_lock_duration_ms = or_default duration s.default_max_lock_duration_ms;
        })
        s.locks
      ∙ ap
          (λ b.
            if b
            then some (record {
              holder = task_id;
              acquired_at = now;
              max_lock_duration_ms = or_default duration s.default_max_lock_duration_ms;
            })
            else Dict.get o s.locks)
          n;
  queues = λ o n. refl;
}

pub resolve-Elsewhere :
    (id : ℕ) (answer : Bool) (ref : String) (waited : ℕ) (s : WorkspaceLock)
    → Elsewhere ref s (resolve id answer ref waited s)
unfolding resolve
resolve-Elsewhere id answer ref waited s = record { locks = λ o n. refl; queues = λ o n. refl }

pub put_queue-Elsewhere :
    (ref : String) (ws : List Waiter) (s : WorkspaceLock) → Elsewhere ref s (put_queue ref ws s)
put_queue-Elsewhere ref ws s = record {
  locks = λ o n. ap (Dict.get o) (locks-put_queue ref ws s);
  queues = λ o n. queue-put_queue ref o ws s ∙ ap (λ b. if b then ws else queue_of o s) n;
}

pub delete-Elsewhere :
    (ref : String) (s : WorkspaceLock)
    → Elsewhere ref s (record s { locks = Dict.delete ref s.locks })
delete-Elsewhere ref s = record {
  locks = λ o n. get-delete ref o s.locks ∙ ap (λ b. if b then none else Dict.get o s.locks) n;
  queues = λ o n. refl;
}

pub set-Elsewhere :
    (ref : String) (ws : List Waiter) (s : WorkspaceLock)
    → Elsewhere ref s (record s { waiters = Dict.set ref ws s.waiters })
set-Elsewhere ref ws s = record {
  locks = λ o n. refl;
  queues = λ o n.
      ap (λ q. or_default q [])
        (get-set ref o ws s.waiters ∙ ap (λ b. if b then some ws else Dict.get o s.waiters) n);
}

abbrev pub IsLocked : String → WorkspaceLock → Type 0
IsLocked ref s = Dict.get ref s.locks ≢ none

pub take_lock-IsLocked :
    (duration : Option ℕ) (ref task_id : String) (now : ℕ) (s : WorkspaceLock)
    → IsLocked ref (take_lock duration ref task_id now s)
take_lock-IsLocked duration ref task_id now s h =
    ground (arith, sym (holder-take_lock duration ref task_id now s) ∙ ap holder_in h)

-- What holds everywhere else still holds; it is enough to look at the one workspace.
pub Elsewhere-IsHandedOver :
    (ref : String) (s t : WorkspaceLock)
    → Elsewhere ref s t
    → (Dict.get ref t.locks ≡ none → queue_of ref t ≡ [])
    → IsHandedOver s
    → IsHandedOver t
Elsewhere-IsHandedOver ref s t e here h o free = elim (Bool-cases (str_eq ref o)) [
  | inl same ↦
      subst (λ z. Dict.get z t.locks ≡ none → queue_of z t ≡ []) ((eq_iff ref o).0 same) here free
  | inr n ↦ e.queues o n ∙ h o (sym (e.locks o n) ∙ free)
]

pub queue-cases : (ws : List Waiter) → (ws ≡ []) ⊎ (w : Waiter) × (vs : List Waiter) × (ws ≡ w ∷ vs)
queue-cases [] = inl refl
queue-cases (w ∷ ws) = inr (w, ws, refl)
