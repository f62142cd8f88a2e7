-- ===== src/Scheduler/Scheduler/Bounded.antt =====
-- What bounds the attempts of src/scheduler/index.ts, through the queue and its loop.
use roboppi.Base.{
  ℕ, ◌+◌, ◌==◌, ◌≤◌, max, ◌≡◌, refl, subst, sym, ap, ◌∙◌, inl, inr, true, false, Option, none, some,
  List, [], ◌∷◌, ◌++◌, String, All, arith, if◌then◌else◌, Bool-cases, Option-cases, leb, length,
  if_holds,
}
use mathlib.Core.Option
use roboppi.Types.{Job, ErrorClass}
use roboppi.Ipc.Messages.{InboundMessage}
use roboppi.Scheduler.DeadLetterQueue.{DlqEntry, DeadLetterQueue, push, append_entry, rest_of}
use roboppi.Scheduler.JobQueue
use roboppi.Scheduler.JobQueue.{JobQueue}
use roboppi.Scheduler.InflightRegistry.{
  DeduplicationPolicy, RegisterResult, proceeds, coalesces, rejects, Registry,
}
use roboppi.Scheduler.RetryPolicy.{RetryPolicyConfig, should_retry, Fraction}
use roboppi.Scheduler.Scheduler.{
  InFlightJobInfo, Scheduler, notify, requeue, admit, update, update_if, truthy, submit_job,
  registered, taken, process_next, turn_at, Loop, looping, ended, waiting, notified,
}
use roboppi.Scheduler.Scheduler.Events.{bury}

abbrev pub Sent : Type 0
Sent = List InboundMessage × Scheduler

abbrev pub Fits : ℕ → DlqEntry → Type 0
Fits m e = (1 ≤ e.attempt_count) × (e.attempt_count ≤ max 1 m)

abbrev pub Low : ℕ → Option InFlightJobInfo → Type 0
Low m none = Unit
Low m (some i) = i.attempt_index + 1 ≤ max 1 m

-- No object counts more attempts than the policy allows, and each dead letter was attempted at least once
-- and not more often than that.
pub record IsBounded (m : ℕ) (s : Scheduler) : Type 0 where
  pub policy : s.retry_policy.max_attempts ≡ m
  pub counts : (r : ℕ) → Low m (s.objects r)
  pub letters : All (Fits m) s.dlq.entries

pub retry_allowed :
    (c : RetryPolicyConfig) (error : ErrorClass) (attempt : ℕ) (random : Fraction)
    → (should_retry c error attempt random).retry ≡ true
    → attempt + 2 ≤ c.max_attempts
unfolding should_retry
retry_allowed c error attempt random h = ground arith

All-rest_of : (m : ℕ) (es : List DlqEntry) → All (Fits m) es → All (Fits m) (rest_of es)
All-rest_of m [] a = tt
All-rest_of m (e ∷ es) a = a.1

All-append :
    (m : ℕ) (es : List DlqEntry) (e : DlqEntry)
    → All (Fits m) es
    → Fits m e
    → All (Fits m) (es ++ e ∷ [])
All-append m [] e a f = (f, tt)
All-append m (x ∷ es) e a f = (a.0, All-append m es e a.1 f)

push-All :
    (m : ℕ) (e : DlqEntry) (q : DeadLetterQueue)
    → All (Fits m) q.entries
    → Fits m e
    → All (Fits m) (push false e q).entries
unfolding push append_entry
push-All m e q a f = elim (Bool-cases q.persists) [
  | inl y ↦ rw (y, push) pushed
  | inr n ↦ rw (n, push) pushed
]
  where
    pushed :
        All
          (Fits m)
          ((if leb q.max_size (length q.entries) then rest_of q.entries else q.entries) ++ e ∷ [])
    pushed =
        All-append m _ e
          (if_holds (All (Fits m)) (leb q.max_size (length q.entries))
            (λ _. All-rest_of m q.entries a) (λ _. a))
          f

module _ (m : ℕ) where
  pub update-IsBounded :
      (r : ℕ) (f : InFlightJobInfo → InFlightJobInfo) (s : Scheduler)
      → Low m (Option.map f (s.objects r))
      → IsBounded m s
      → IsBounded m (update r f s)
  unfolding update
  update-IsBounded r f s low b = record {
    policy = b.policy;
    counts = λ n.
        if_holds (Low m) (n == r)
          (λ e. subst (λ x. Low m (Option.map f (s.objects x))) (ground (arith, e)) low)
          (λ _. b.counts n);
    letters = b.letters;
  }

  Low-map :
      (f : InFlightJobInfo → InFlightJobInfo) (o : Option InFlightJobInfo)
      → ((i : InFlightJobInfo) → (f i).attempt_index ≡ i.attempt_index)
      → Low m o
      → Low m (Option.map f o)
  Low-map f none e l = l
  Low-map f (some i) e l = subst (λ x. x + 1 ≤ max 1 m) (sym (e i)) l

  pub update_if-IsBounded :
      (o : Option ℕ) (f : InFlightJobInfo → InFlightJobInfo) (s : Scheduler)
      → ((i : InFlightJobInfo) → (f i).attempt_index ≡ i.attempt_index)
      → IsBounded m s
      → IsBounded m (update_if o f s)
  unfolding update_if
  update_if-IsBounded none f s e b = b
  update_if-IsBounded (some r) f s e b =
      update-IsBounded r f s (Low-map f (s.objects r) e (b.counts r)) b

  pub bury-IsBounded :
      (e : DlqEntry) (s : Scheduler) → Fits m e → IsBounded m s → IsBounded m (bury e s)
  unfolding bury
  bury-IsBounded e s f b = record {
    policy = b.policy;
    counts = b.counts;
    letters = push-All m e s.dlq b.letters f;
  }

  -- A change to the other parts of the state.
  pub rest-IsBounded :
      (s t : Scheduler)
      → t.retry_policy ≡ s.retry_policy
      → t.objects ≡ s.objects
      → t.dlq ≡ s.dlq
      → IsBounded m s
      → IsBounded m t
  rest-IsBounded s t p o d b = record {
    policy = ap (λ x. x.max_attempts) p ∙ b.policy;
    counts = λ r. subst (λ f. Low m (f r)) (sym o) (b.counts r);
    letters = subst (λ q. All (Fits m) q.entries) (sym d) b.letters;
  }

  admit-IsBounded :
      (job : Job) (now : ℕ) (s : Scheduler) → IsBounded m s → IsBounded m (admit job now s)
  unfolding admit requeue notify
  admit-IsBounded job now s b = record {
    policy = b.policy;
    counts = λ n. if_holds (Low m) (n == s.next_object) (λ _. omega arith) (λ _. b.counts n);
    letters = b.letters;
  }

  registered-IsBounded :
      (a : RegisterResult × Registry) (key : String) (job : Job) (now : ℕ) (s : Scheduler)
      → IsBounded m s
      → IsBounded m (registered a key job now s).1
  unfolding registered
  registered-IsBounded (rejects existing, r) key job now s b = rest-IsBounded s _ refl refl refl b
  registered-IsBounded (coalesces existing, r) key job now s b = rest-IsBounded s _ refl refl refl b
  registered-IsBounded (proceeds c, r) key job now s b =
      admit-IsBounded job now _ (rest-IsBounded s _ refl refl refl b)

  pub submit_job-IsBounded :
      (job : Job) (policy : Option DeduplicationPolicy) (now : ℕ) (s : Scheduler)
      → IsBounded m s
      → IsBounded m (submit_job job policy now s).1
  unfolding submit_job
  submit_job-IsBounded job policy now s b = elim (Option-cases (truthy job.key)) [
    | inl none_of ↦ rw (none_of, submit_job) (admit-IsBounded job now s b)
    | inr (key, e) ↦ rw (e, submit_job) (registered-IsBounded _ key job now s b)
  ]

  taken-IsBounded :
      (x y : String) (o : Option (Job × JobQueue)) (s : Scheduler)
      → IsBounded m s
      → IsBounded m (taken x y o s).1
  unfolding taken
  taken-IsBounded x y none s b = b
  taken-IsBounded x y (some (job, q)) s b = rest-IsBounded s _ refl refl refl b

  process_next-IsBounded :
      (x y : String) (s : Scheduler) → IsBounded m s → IsBounded m (process_next x y s).1
  unfolding process_next
  process_next-IsBounded x y s b =
      if_holds (λ (o : Sent). IsBounded m o.1) s.connected
        (λ _. taken-IsBounded x y (JobQueue.dequeue s.queue) s b) (λ _. b)

  pub turn_at-IsBounded :
      (l : Loop) (x y : String) (s : Scheduler) → IsBounded m s → IsBounded m (turn_at l x y s).1
  unfolding turn_at
  turn_at-IsBounded ended x y s b = b
  turn_at-IsBounded waiting x y s b = b
  turn_at-IsBounded looping x y s b =
      if_holds (λ (o : Sent). IsBounded m o.1) s.running
        (λ _.
          if_holds (λ (o : Sent). IsBounded m o.1) (JobQueue.is_empty s.queue)
            (λ _. rest-IsBounded s _ refl refl refl b) (λ _. process_next-IsBounded x y s b))
        (λ _. rest-IsBounded s _ refl refl refl b)
  turn_at-IsBounded notified x y s b =
      if_holds (λ (o : Sent). IsBounded m o.1) s.running
        (λ _. process_next-IsBounded x y _ (rest-IsBounded s _ refl refl refl b))
        (λ _. rest-IsBounded s _ refl refl refl b)
