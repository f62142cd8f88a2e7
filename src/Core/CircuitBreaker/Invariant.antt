-- ===== src/Core/CircuitBreaker/Invariant.antt =====
-- What holds of a breaker between two calls.
use roboppi.Base.{subst, sym, ◌≤◌, ◌<◌, ◌≡◌, ◌≢◌, true, none, List, [], ◌∷◌, arith}
use roboppi.Core.CircuitBreaker.{
  CircuitBreakerConfig, CircuitBreaker, Event, closed, half_open, opened, succeeds, asks, disposes,
  fails, timer, new, record_success, record_failure, should_reject, dispose, fire, step, run,
}

pub record IsSound (c : CircuitBreakerConfig) : Type 0 where
  pub some_failures : 1 ≤ c.failure_threshold
  pub some_attempts : 1 ≤ c.half_open_max_attempts

pub record IsConsistent (b : CircuitBreaker) : Type 0 where
  pub below_threshold : b.state ≡ closed → b.failure_count < b.failure_threshold
  pub attempts_left : b.half_open_attempts < b.half_open_max_attempts
  pub attempts_half_open : 0 < b.half_open_attempts → b.state ≡ half_open
  pub probe_half_open : b.half_open_in_progress ≡ true → b.state ≡ half_open
  pub timer_opened : b.reset_timer ≢ none → b.state ≡ opened

new-IsConsistent : (c : CircuitBreakerConfig) → IsSound c → IsConsistent (new c)
unfolding new
new-IsConsistent c s = ground arith

step-IsConsistent :
    (e : Event) (b : CircuitBreaker) → IsSound b.config → IsConsistent b → IsConsistent (step e b)
unfolding step record_success record_failure should_reject dispose fire
step-IsConsistent succeeds b s v = ground arith
step-IsConsistent asks b s v = ground arith
step-IsConsistent disposes b s v = ground arith
step-IsConsistent (fails now) b s v = ground arith
step-IsConsistent (timer now) b s v = ground arith

step-config : (e : Event) (b : CircuitBreaker) → (step e b).config ≡ b.config
unfolding step record_success record_failure should_reject dispose fire
step-config succeeds b = ground arith
step-config asks b = ground arith
step-config disposes b = ground arith
step-config (fails now) b = ground arith
step-config (timer now) b = ground arith

run-IsConsistent :
    (es : List Event) (b : CircuitBreaker)
    → IsSound b.config
    → IsConsistent b
    → IsConsistent (run es b)
unfolding run
run-IsConsistent [] b s v = v
run-IsConsistent (e ∷ es) b s v =
    run-IsConsistent es (step e b) (subst IsSound (sym (step-config e b)) s)
      (step-IsConsistent e b s v)

-- With both limits at least 1, any sequence of calls on a new breaker keeps it consistent: a closed
-- breaker has counted fewer failures than the threshold, probes are counted and marked as running
-- only while it is half-open and below their limit, and the timer is armed only while it is open.
pub run-new-IsConsistent :
    (c : CircuitBreakerConfig) (es : List Event) → IsSound c → IsConsistent (run es (new c))
unfolding new
run-new-IsConsistent c es s = run-IsConsistent es (new c) s (new-IsConsistent c s)
