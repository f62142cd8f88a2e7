-- ===== src/Core/CircuitBreaker/Probing.antt =====
-- What a half-open breaker lets through, and how it closes or opens again.
use roboppi.Base.{
  ℕ, zero, suc, ◌+◌, ◌≤◌, ◌<◌, min, ◌≡◌, inl, inr, Bool, true, false, some, List, [], ◌∷◌, arith,
  leb, if◌then◌else◌, length, Bool-cases,
}
use roboppi.Core.CircuitBreaker.{
  CircuitState, CircuitBreaker, Event, closed, half_open, opened, asks, fails, new, record_success,
  record_failure, should_reject, fire, step, run,
}

abbrev let_through : Bool → ℕ
let_through true = 0
let_through false = 1

-- How many of `n` requests in a row are let through, with no outcome between.
pub admitted : ℕ → CircuitBreaker → ℕ
admitted zero b = 0
admitted (suc n) b = let (rejected, c) = should_reject b in let_through rejected + admitted n c

abbrev pub quota : CircuitState → Bool → ℕ → ℕ
quota closed busy n = n
quota opened busy n = 0
quota half_open true n = 0
quota half_open false n = min 1 n

-- A closed breaker lets all requests through, an open one none, and a half-open one a single
-- probe: one request if no probe is running, and none while one is.
pub admits_one_probe :
    (n : ℕ) (b : CircuitBreaker) → admitted n b ≡ quota b.state b.half_open_in_progress n
unfolding admitted should_reject
admits_one_probe zero b = ground arith
admits_one_probe (suc n) b = ground (arith, admits_one_probe n (should_reject b).1)

-- Probes that fail at these times.
abbrev pub failed_probes : List ℕ → List Event
failed_probes [] = []
failed_probes (now ∷ times) = asks ∷ fails now ∷ failed_probes times

abbrev probe : ℕ → CircuitBreaker → CircuitBreaker
probe now b = record_failure now (should_reject b).1

probe_opened : (now : ℕ) (b : CircuitBreaker) → b.state ≡ opened → (probe now b).state ≡ opened
unfolding record_failure should_reject
probe_opened now b h = ground arith

probes_opened :
    (times : List ℕ) (b : CircuitBreaker)
    → b.state ≡ opened
    → (run (failed_probes times) b).state ≡ opened
unfolding run step
probes_opened [] b h = h
probes_opened (now ∷ times) b h = probes_opened times (probe now b) (probe_opened now b h)

probe_half_open :
    (now : ℕ) (b : CircuitBreaker)
    → b.state ≡ half_open
    → b.half_open_attempts + 1 < b.half_open_max_attempts
    → ((probe now b).state ≡ half_open)
      × ((probe now b).half_open_attempts ≡ b.half_open_attempts + 1)
      × ((probe now b).half_open_max_attempts ≡ b.half_open_max_attempts)
unfolding record_failure should_reject
probe_half_open now b h lt = ground arith

probe_reopens :
    (now : ℕ) (b : CircuitBreaker)
    → b.state ≡ half_open
    → b.half_open_max_attempts ≤ b.half_open_attempts + 1
    → (probe now b).state ≡ opened
unfolding record_failure should_reject
probe_reopens now b h le = ground arith

-- A half-open breaker whose probes all fail is open again from the probe on that uses up
-- `half_open_max_attempts`, and half-open before.
reopens_exactly :
    (times : List ℕ) (b : CircuitBreaker)
    → b.state ≡ half_open
    → b.half_open_attempts < b.half_open_max_attempts
    → (run (failed_probes times) b).state ≡ (
        if leb b.half_open_max_attempts (b.half_open_attempts + length times)
        then opened
        else half_open)
unfolding run step
reopens_exactly [] b h lt = ground arith
reopens_exactly (now ∷ times) b h lt =
    elim (Bool-cases (leb b.half_open_max_attempts (b.half_open_attempts + 1))) [
      | inl full ↦
          ground (arith, probes_opened times (probe now b) (probe_reopens now b h (ground arith)))
      | inr room ↦
          let less : b.half_open_attempts + 1 < b.half_open_max_attempts = ground arith in
          let (still, used, same) = probe_half_open now b h less in
          ground (arith, reopens_exactly times (probe now b) still (omega arith))
    ]

-- The timer of an open breaker does nothing early. Once it is due the next request is let through
-- as a probe, and a success of that probe leaves the breaker as good as new.
recovers :
    (now due : ℕ) (b : CircuitBreaker)
    → b.state ≡ opened
    → b.reset_timer ≡ some due
    → (now < due → fire now b ≡ b)
      × (due ≤ now
          → ((should_reject (fire now b)).0 ≡ false)
            × (record_success (should_reject (fire now b)).1 ≡ new b.config))
unfolding fire should_reject record_success new
recovers now due b h t = (λ early. ground arith, λ late. (ground arith, ground arith))
