-- ===== src/Scheduler/Scheduler/Reasons.antt =====
-- Why src/scheduler/index.ts forgets a job, when it is told of the end of a job.
use roboppi.Base.{
  ℕ, ◌+◌, String, eq_iff, ◌≡◌, refl, true, false, Option, none, some, List, [], ◌∷◌, ◌++◌, arith,
  if◌then◌else◌, if_holds, leb, length,
}
use roboppi.Base.Dict
use roboppi.Base.Dict.{Dict, Unique, get-set, get-delete}
use roboppi.Types.{ErrorClass}
use roboppi.Ipc.Messages.{WorkerStatus, failed, succeeded, cancelled}
use roboppi.Scheduler.DeadLetterQueue.{DlqEntry, DeadLetterQueue, push, append_entry, rest_of}
use roboppi.Scheduler.RetryPolicy.{Fraction, should_retry}
use roboppi.Scheduler.Scheduler.{InFlightJobInfo, Scheduler, update}
use roboppi.Scheduler.Scheduler.Events.{
  forget, bury, give_up, retried, put_back_after, failed_with, completed_with, Event, cancels,
  completes, drains,
}

-- The last dead letter is of the job, with one attempt more than were counted.
pub record IsBuried (i : InFlightJobInfo) (q : DeadLetterQueue) : Type 0 where
  before : List DlqEntry
  letter : DlqEntry
  stands : q.entries ≡ before ++ letter ∷ []
  same_job : letter.job ≡ i.job
  attempts : letter.attempt_count ≡ i.attempt_index + 1

-- What an event has to be that makes the scheduler forget a job.
abbrev pub Explains : String → InFlightJobInfo → Scheduler → Event → Type 0
Explains id i t (cancels job_id) = job_id ≡ id
Explains id i t (completes job_id succeeded error random now) = job_id ≡ id
Explains id i t (completes job_id cancelled error random now) = job_id ≡ id
Explains id i t (completes job_id failed error random now) = (job_id ≡ id) × IsBuried i t.dlq
Explains id i t (drains now) = i.processing ≡ true
Explains id i t _ = ⊥

module _ (id : String) (r : ℕ) where
  pub deleted :
      (j : String) (m : Dict ℕ)
      → Dict.get id m ≡ some r
      → Dict.get id (Dict.delete j m) ≡ none
      → j ≡ id
  deleted j m had gone = ground (arith, get-delete j id m, eq_iff j id)

  pub not_set :
      (j : String) (q : ℕ) (m : Dict ℕ)
      → Dict.get id m ≡ some r
      → Dict.get id (Dict.set j q m) ≡ none
      → ⊥
  not_set j q m had gone = ground (arith, get-set j id q m)

  pub kept : (m n : Dict ℕ) → n ≡ m → Dict.get id m ≡ some r → Dict.get id n ≡ none → ⊥
  kept m n same had gone = absurd (cc)

module _ (id : String) (r : ℕ) (i : InFlightJobInfo) where
  push-IsBuried :
      (e : DlqEntry) (q : DeadLetterQueue)
      → e.job ≡ i.job
      → e.attempt_count ≡ i.attempt_index + 1
      → IsBuried i (push false e q)
  unfolding push append_entry
  push-IsBuried e q j n = record {
    before = if leb q.max_size (length q.entries) then rest_of q.entries else q.entries;
    letter = e;
    stands =
        if_holds
          (λ (t : DeadLetterQueue).
            t.entries
            ≡ (if leb q.max_size (length q.entries) then rest_of q.entries else q.entries)
              ++ e ∷ [])
          q.persists (λ _. refl) (λ _. refl);
    same_job = j;
    attempts = n;
  }

  give_up_explained :
      (j : String) (error : Option ErrorClass) (now : ℕ) (s : Scheduler)
      → Dict.get id s.job_info ≡ some r
      → Dict.get id (give_up j i error now s).job_info ≡ none
      → (j ≡ id) × IsBuried i (give_up j i error now s).dlq
  unfolding give_up forget bury
  give_up_explained j error now s had gone =
      (deleted id r j s.job_info had gone, push-IsBuried _ s.dlq refl refl)

  failed_explained :
      (j : String) (q : ℕ) (error : Option ErrorClass) (random : Fraction) (now : ℕ) (s : Scheduler)
      → Dict.get id s.job_info ≡ some r
      → Dict.get id (failed_with j q i error random now s).job_info ≡ none
      → (j ≡ id) × IsBuried i (failed_with j q i error random now s).dlq
  unfolding failed_with retried put_back_after update
  failed_explained j q none random now s had gone = give_up_explained j none now s had gone
  failed_explained j q (some error) random now s had gone =
      if_holds (λ (t : Scheduler). Dict.get id t.job_info ≡ none → (j ≡ id) × IsBuried i t.dlq)
        (should_retry s.retry_policy error i.attempt_index random).retry
        (λ _ lost. absurd (kept id r s.job_info s.job_info refl had lost))
        (λ _ lost. give_up_explained j (some error) now s had lost) gone

  pub completed_explained :
      (outcome : WorkerStatus) (j : String) (q : ℕ) (error : Option ErrorClass) (random : Fraction)
      (now : ℕ) (s : Scheduler)
      → Dict.get id s.job_info ≡ some r
      → Dict.get id (completed_with outcome j q i error random now s).job_info ≡ none
      → Explains id i
          (completed_with outcome j q i error random now s)
          (completes j outcome error random now)
  unfolding completed_with forget
  completed_explained succeeded j q error random now s had gone = deleted id r j s.job_info had gone
  completed_explained cancelled j q error random now s had gone = deleted id r j s.job_info had gone
  completed_explained failed j q error random now s had gone =
      failed_explained j q error random now s had gone

pub explained_id :
    (id j : String) (i : InFlightJobInfo) (t : Scheduler) (outcome : WorkerStatus)
    (error : Option ErrorClass) (random : Fraction) (now : ℕ)
    → Explains id i t (completes j outcome error random now)
    → j ≡ id
explained_id id j i t succeeded error random now e = e
explained_id id j i t cancelled error random now e = e
explained_id id j i t failed error random now e = e.0
