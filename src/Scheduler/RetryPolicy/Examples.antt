-- ===== src/Scheduler/RetryPolicy/Examples.antt =====
-- The default policy of src/scheduler/retry-policy.ts.
use roboppi.Base.{◌+◌, ℕ, ◌≡◌, refl, true, arith}
use roboppi.Types.{retryable_network}
use roboppi.Scheduler.RetryPolicy.{Fraction, default_retry_config, is_retryable, should_retry}
use roboppi.Scheduler.RetryPolicy.Retries.{retries, retries_lem}

abbrev half : Fraction
half = record { num = 1; den = 2 }

third_attempt :
    (should_retry default_retry_config retryable_network 1 half).delay_ms
    ≡ record { num = 2000; den = 2 }
unfolding roboppi.Scheduler.RetryPolicy.should_retry roboppi.Scheduler.RetryPolicy.capped_delay
    roboppi.Scheduler.RetryPolicy.is_retryable
third_attempt = refl

always : (n : ℕ) → is_retryable retryable_network ≡ true
unfolding roboppi.Scheduler.RetryPolicy.is_retryable
always n = refl

retries_lem_example : retries 5 default_retry_config (λ n. retryable_network) (λ n. half) 0 + 1 ≡ 3
retries_lem_example =
    retries_lem 5 default_retry_config (λ n. retryable_network) (λ n. half) always (omega arith)
