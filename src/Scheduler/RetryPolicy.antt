-- ===== src/Scheduler/RetryPolicy.antt =====
-- src/scheduler/retry-policy.ts. `Math.random()` is a fraction that the caller passes, of which the
-- numerator is below the denominator; a delay keeps the denominator.
pub mod Retries
mod Examples
use roboppi.Base.{ℕ, suc, ◌+◌, ◌*◌, ◌^◌, min, Bool, true, false, leb, if◌then◌else◌}
use roboppi.Types.{
  ErrorClass, retryable_transient, retryable_rate_limit, retryable_network, retryable_service,
  non_retryable, non_retryable_lint, non_retryable_test, fatal,
}

pub record RetryPolicyConfig : Type 0 where
  pub base_delay_ms : ℕ
  pub max_delay_ms : ℕ
  pub max_attempts : ℕ

abbrev pub default_retry_config : RetryPolicyConfig
default_retry_config = record { base_delay_ms = 1000; max_delay_ms = 30000; max_attempts = 3 }

pub record Fraction : Type 0 where
  pub num : ℕ
  pub den : ℕ

pub record RetryDecision : Type 0 where
  pub retry : Bool
  pub delay_ms : Fraction

unfoldable pub is_retryable : ErrorClass → Bool
is_retryable retryable_transient = true
is_retryable retryable_rate_limit = true
is_retryable retryable_network = true
is_retryable retryable_service = true
is_retryable non_retryable = false
is_retryable non_retryable_lint = false
is_retryable non_retryable_test = false
is_retryable fatal = false

abbrev pub no_retry : RetryDecision
no_retry = record { retry = false; delay_ms = record { num = 0; den = 1 } }

unfoldable pub capped_delay : RetryPolicyConfig → ℕ → ℕ
capped_delay c attempt_index = min c.max_delay_ms (c.base_delay_ms * 2 ^ attempt_index)

-- `attemptIndex >= maxAttempts - 1`, with 1 added to both.
unfoldable pub should_retry : RetryPolicyConfig → ErrorClass → ℕ → Fraction → RetryDecision
should_retry c error attempt_index random =
    if is_retryable error
    then (if leb c.max_attempts (attempt_index + 1) then no_retry else record {
      retry = true;
      delay_ms = record { num = random.num * capped_delay c attempt_index; den = random.den };
    })
    else no_retry
