-- ===== src/Core/CircuitBreaker.antt =====
-- src/core/circuit-breaker.ts, the class `CircuitBreaker`. A method returns the breaker that it
-- leaves. `setTimeout` is the time at which the callback is due, and the callback is `fire`.
pub mod Invariant
pub mod Opening
pub mod Probing
mod Examples
use roboppi.Base.{
  ℕ, ◌+◌, Bool, true, false, ◌&&◌, Option, none, some, List, [], ◌∷◌, leb, if◌then◌else◌,
}

pub data CircuitState : Type 0 where
  closed half_open opened : CircuitState

pub record CircuitBreakerConfig : Type 0 where
  pub failure_threshold : ℕ
  pub reset_timeout_ms : ℕ
  pub half_open_max_attempts : ℕ

abbrev pub default_config : CircuitBreakerConfig
default_config = record {
  failure_threshold = 5;
  reset_timeout_ms = 30_000;
  half_open_max_attempts = 3;
}

pub record CircuitBreaker : Type 0 where
  pub config : CircuitBreakerConfig
  pub open config use *
  pub state : CircuitState
  pub failure_count : ℕ
  pub half_open_attempts : ℕ
  pub half_open_in_progress : Bool
  pub reset_timer : Option ℕ

unfoldable pub new : CircuitBreakerConfig → CircuitBreaker
new c = record {
  config = c;
  state = closed;
  failure_count = 0;
  half_open_attempts = 0;
  half_open_in_progress = false;
  reset_timer = none;
}

success_in : CircuitState → CircuitBreaker → CircuitBreaker
success_in half_open b = record b {
  half_open_in_progress = false;
  state = closed;
  failure_count = 0;
  half_open_attempts = 0;
}
success_in closed b = record b { failure_count = 0 }
success_in opened b = b

unfoldable pub record_success : CircuitBreaker → CircuitBreaker
unfolding success_in
record_success b = success_in b.state b

-- A timer that is armed already is cleared and armed anew.
trip_open : ℕ → CircuitBreaker → CircuitBreaker
trip_open now b = record b {
  state = opened;
  half_open_attempts = 0;
  reset_timer = some (now + b.reset_timeout_ms);
}

failure_in : CircuitState → ℕ → CircuitBreaker → CircuitBreaker
unfolding trip_open
failure_in half_open now b =
    let c = record b {
      half_open_in_progress = false;
      half_open_attempts = b.half_open_attempts + 1;
    } in
    if leb c.half_open_max_attempts c.half_open_attempts then trip_open now c else c
failure_in closed now b = if leb b.failure_threshold b.failure_count then trip_open now b else b
failure_in opened now b = b

unfoldable pub record_failure : ℕ → CircuitBreaker → CircuitBreaker
unfolding failure_in
record_failure now b = failure_in b.state now (record b { failure_count = b.failure_count + 1 })

reject_in : CircuitState → CircuitBreaker → Bool × CircuitBreaker
reject_in opened b = (true, b)
reject_in half_open b =
    if b.half_open_in_progress
    then (true, b)
    else (false, record b { half_open_in_progress = true })
reject_in closed b = (false, b)

-- Asking is a change: a half-open breaker lets the asker through as its one probe.
unfoldable pub should_reject : CircuitBreaker → Bool × CircuitBreaker
unfolding reject_in
should_reject b = reject_in b.state b

abbrev pub is_opened : CircuitState → Bool
is_opened opened = true
is_opened _ = false

unfoldable pub is_open : CircuitBreaker → Bool
is_open b = is_opened b.state

unfoldable pub dispose : CircuitBreaker → CircuitBreaker
dispose b = record b { reset_timer = none }

-- The callback of the timer.
reset : CircuitBreaker → CircuitBreaker
reset b = record b {
  state = half_open;
  half_open_attempts = 0;
  half_open_in_progress = false;
  reset_timer = none;
}

fire_at : Option ℕ → ℕ → CircuitBreaker → CircuitBreaker
unfolding reset
fire_at none now b = b
fire_at (some due) now b = if leb due now then reset b else b

-- The event loop at a time: it runs the callback if that is due.
unfoldable pub fire : ℕ → CircuitBreaker → CircuitBreaker
unfolding fire_at
fire now b = fire_at b.reset_timer now b

-- What can happen to a breaker, each with the time.
pub data Event : Type 0 where
  succeeds asks disposes : Event
  fails timer : ℕ → Event

unfoldable pub step : Event → CircuitBreaker → CircuitBreaker
step succeeds b = record_success b
step asks b = (should_reject b).1
step disposes b = dispose b
step (fails now) b = record_failure now b
step (timer now) b = fire now b

unfoldable pub run : List Event → CircuitBreaker → CircuitBreaker
run [] b = b
run (e ∷ es) b = run es (step e b)
