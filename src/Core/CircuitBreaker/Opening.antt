-- ===== src/Core/CircuitBreaker/Opening.antt =====
-- When a closed breaker opens, and how long it stays so.
use roboppi.Base.{
  ℕ, ◌+◌, ◌≤◌, ◌<◌, max, ◌≡◌, inl, inr, true, List, [], ◌∷◌, map, arith, leb, if◌then◌else◌, All,
  Bool-cases,
}
use roboppi.Core.CircuitBreaker.{
  CircuitBreaker, Event, closed, opened, succeeds, asks, disposes, fails, timer, record_success,
  record_failure, should_reject, dispose, step, run,
}

-- The outcome of a call, a failure with its time.
pub data Outcome : Type 0 where
  good : Outcome
  bad : ℕ → Outcome

abbrev pub event : Outcome → Event
event good = succeeds
event (bad now) = fails now

-- The longest row of failures, where `n` of them have just been seen.
abbrev pub longest : ℕ → List Outcome → ℕ
longest n [] = n
longest n (good ∷ os) = max n (longest 0 os)
longest n (bad _ ∷ os) = longest (n + 1) os

le-longest : (n : ℕ) (os : List Outcome) → n ≤ longest n os
le-longest n [] = omega arith
le-longest n (good ∷ os) = omega arith
le-longest n (bad _ ∷ os) = omega (arith, le-longest (n + 1) os)

-- Nothing but the timer gets a breaker out of `opened`.
abbrev pub IsQuiet : Event → Type 0
IsQuiet (timer _) = ⊥
IsQuiet _ = Unit

step_opened :
    (e : Event) (b : CircuitBreaker) → IsQuiet e → b.state ≡ opened → (step e b).state ≡ opened
unfolding step record_success record_failure should_reject dispose
step_opened succeeds b q h = ground arith
step_opened asks b q h = ground arith
step_opened disposes b q h = ground arith
step_opened (fails now) b q h = ground arith
step_opened (timer now) b q h = absurd q

run_opened :
    (es : List Event) (b : CircuitBreaker)
    → All IsQuiet es
    → b.state ≡ opened
    → (run es b).state ≡ opened
unfolding run
run_opened [] b q h = h
run_opened (e ∷ es) b q h = run_opened es (step e b) q.1 (step_opened e b q.0 h)

reject_opened : (b : CircuitBreaker) → b.state ≡ opened → should_reject b ≡ (true, b)
unfolding should_reject
reject_opened b h = ground arith

-- An open breaker rejects, and stays open, whatever outcomes, requests and calls of `dispose` come
-- before its timer runs.
rejects_until_timer :
    (es : List Event) (b : CircuitBreaker)
    → All IsQuiet es
    → b.state ≡ opened
    → should_reject (run es b) ≡ (true, run es b)
rejects_until_timer es b q h = reject_opened (run es b) (run_opened es b q h)

IsQuiet-event : (os : List Outcome) → All IsQuiet (map event os)
IsQuiet-event [] = tt
IsQuiet-event (good ∷ os) = (tt, IsQuiet-event os)
IsQuiet-event (bad _ ∷ os) = (tt, IsQuiet-event os)

module _ (b : CircuitBreaker) (h : b.state ≡ closed) where
  good_closed :
      ((record_success b).state ≡ closed)
      × ((record_success b).failure_count ≡ 0)
      × ((record_success b).failure_threshold ≡ b.failure_threshold)
  unfolding record_success
  good_closed = ground arith

  bad_closed :
      (now : ℕ)
      → b.failure_count + 1 < b.failure_threshold
      → ((record_failure now b).state ≡ closed)
        × ((record_failure now b).failure_count ≡ b.failure_count + 1)
        × ((record_failure now b).failure_threshold ≡ b.failure_threshold)
  unfolding record_failure
  bad_closed now lt = ground arith

  bad_opens :
      (now : ℕ) → b.failure_threshold ≤ b.failure_count + 1 → (record_failure now b).state ≡ opened
  unfolding record_failure
  bad_opens now le = ground arith

-- A closed breaker whose failures are fewer than `failure_threshold` is open after a list of outcomes exactly if
-- the list, counted on from the failures already seen, has a row of `failure_threshold` failures with no success between.
pub opens_exactly :
    (os : List Outcome) (b : CircuitBreaker)
    → b.state ≡ closed
    → b.failure_count < b.failure_threshold
    → (run (map event os) b).state
      ≡ (if leb b.failure_threshold (longest b.failure_count os) then opened else closed)
unfolding run step
opens_exactly [] b h lt = ground arith
opens_exactly (good ∷ os) b h lt =
    let (closes, none_seen, same) = good_closed b h in
    ground (arith, opens_exactly os (record_success b) closes (omega arith))
opens_exactly (bad now ∷ os) b h lt =
    elim (Bool-cases (leb b.failure_threshold (b.failure_count + 1))) [
      | inl full ↦ ground (
        arith,
        le-longest (b.failure_count + 1) os,
        run_opened (map event os) (record_failure now b) (IsQuiet-event os)
            (bad_opens b h now (ground arith)),
      )
      | inr room ↦
          let less : b.failure_count + 1 < b.failure_threshold = ground arith in
          let (still, seen, same) = bad_closed b h now less in
          ground (arith, opens_exactly os (record_failure now b) still (omega arith))
    ]
