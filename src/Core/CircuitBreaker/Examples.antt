-- ===== src/Core/CircuitBreaker/Examples.antt =====
-- Runs of a breaker, and the theorems at inputs.
use roboppi.Base.{◌≡◌, refl, some, [], ◌∷◌, map, arith}
use roboppi.Core.CircuitBreaker.{
  CircuitBreakerConfig, CircuitBreaker, closed, half_open, opened, asks, fails, timer, new,
  record_failure, step, run,
}
use roboppi.Core.CircuitBreaker.Invariant.{IsConsistent, run-new-IsConsistent}
use roboppi.Core.CircuitBreaker.Opening.{good, bad, event, opens_exactly}
use roboppi.Core.CircuitBreaker.Probing.{admitted, admits_one_probe}

-- Two failures open it, for 10 ms; two failed probes open it again.
abbrev quick : CircuitBreakerConfig
quick = record { failure_threshold = 2; reset_timeout_ms = 10; half_open_max_attempts = 2 }

abbrev tripped : CircuitBreaker
tripped = record (new quick) { state = opened; failure_count = 2; reset_timer = some 15 }

abbrev probing : CircuitBreaker
probing = record (new quick) { state = half_open; failure_count = 2 }

trips : run (fails 4 ∷ fails 5 ∷ []) (new quick) ≡ tripped
unfolding run step record_failure new
trips = refl

run-new-IsConsistent_example :
    IsConsistent (run (fails 4 ∷ fails 5 ∷ timer 15 ∷ asks ∷ fails 16 ∷ []) (new quick))
run-new-IsConsistent_example =
    run-new-IsConsistent quick (fails 4 ∷ fails 5 ∷ timer 15 ∷ asks ∷ fails 16 ∷ []) (omega arith)

opens_exactly_example :
    (run (map event (bad 1 ∷ good ∷ bad 2 ∷ bad 3 ∷ good ∷ [])) (new quick)).state ≡ opened
unfolding new
opens_exactly_example =
    opens_exactly (bad 1 ∷ good ∷ bad 2 ∷ bad 3 ∷ good ∷ []) (new quick) refl (omega arith)

stays_closed : (run (map event (bad 1 ∷ good ∷ bad 2 ∷ good ∷ [])) (new quick)).state ≡ closed
unfolding new
stays_closed = opens_exactly (bad 1 ∷ good ∷ bad 2 ∷ good ∷ []) (new quick) refl (omega arith)

admits_one_probe_example : admitted 4 probing ≡ 1
unfolding new
admits_one_probe_example = admits_one_probe 4 probing
