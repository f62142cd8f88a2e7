-- ===== src/Scheduler/RetryPolicy/Retries.antt =====
-- How often and how late src/scheduler/retry-policy.ts retries.
use native.Mathlib.Nat.{mul-le-mul, mul_comm}
use roboppi.Base.{
  ℕ, zero, suc, ◌+◌, ◌-◌, ◌*◌, ◌^◌, ◌≤◌, ◌<◌, min, max, ◌≡◌, ◌↔◌, true, Bool-cases, inl, inr, arith,
  leb, if◌then◌else◌,
}
use roboppi.Types.{ErrorClass}
use roboppi.Scheduler.RetryPolicy.{
  RetryPolicyConfig, Fraction, is_retryable, capped_delay, should_retry,
}

scaled : (n d m a : ℕ) → n ≤ d → m ≤ a → n * m ≤ a * d
scaled n d m a h k = omega (arith, mul-le-mul h k, mul_comm d a)

bounded :
    (c : RetryPolicyConfig) (error : ErrorClass) (attempt : ℕ) (random : Fraction) (a : ℕ)
    → random.num ≤ random.den
    → min c.max_delay_ms (c.base_delay_ms * 2 ^ attempt) ≤ a
    → (should_retry c error attempt random).delay_ms.num
      ≤ a * (should_retry c error attempt random).delay_ms.den
unfolding should_retry capped_delay
bounded c error attempt random a h k = elim (Bool-cases (is_retryable error)) [
  | inl e ↦ elim (Bool-cases (leb c.max_attempts (attempt + 1))) [
    | inl used ↦ rw (e, used) (omega arith)
    | inr left ↦
        rw (e, left)
          (scaled random.num random.den (min c.max_delay_ms (c.base_delay_ms * 2 ^ attempt)) a h k)
  ]
  | inr n ↦ rw n (omega arith)
]

-- A job is retried exactly if its error is retryable and the attempts are not used up; the delay is then
-- at most the maximum and at most the base doubled for each attempt.
should_retry_lem :
    (c : RetryPolicyConfig) (error : ErrorClass) (attempt : ℕ) (random : Fraction)
    → random.num < random.den
    → (((should_retry c error attempt random).retry ≡ true)
        ↔ ((is_retryable error ≡ true) × (attempt + 1 < c.max_attempts)))
      × ((should_retry c error attempt random).delay_ms.num
          ≤ c.max_delay_ms * (should_retry c error attempt random).delay_ms.den)
      × ((should_retry c error attempt random).delay_ms.num
          ≤ c.base_delay_ms * 2 ^ attempt * (should_retry c error attempt random).delay_ms.den)
unfolding should_retry capped_delay
should_retry_lem c error attempt random h = (
  ((λ e. ground arith), (λ e. ground arith)),
  bounded c error attempt random (c.max_delay_ms) (omega arith) (omega arith),
  bounded c error attempt random (c.base_delay_ms * 2 ^ attempt) (omega arith) (omega arith),
)

-- How often a job whose attempts all fail is retried, from an attempt on.
unfoldable pub retries : ℕ → RetryPolicyConfig → (ℕ → ErrorClass) → (ℕ → Fraction) → ℕ → ℕ
retries zero c errors randoms attempt = 0
retries (suc rounds) c errors randoms attempt =
    let more = retries rounds c errors randoms (attempt + 1) in
    if (should_retry c (errors attempt) attempt (randoms attempt)).retry then suc more else 0

retries_from :
    (rounds : ℕ) (c : RetryPolicyConfig) (errors : ℕ → ErrorClass) (randoms : ℕ → Fraction)
    (attempt : ℕ)
    → ((n : ℕ) → is_retryable (errors n) ≡ true)
    → c.max_attempts ≤ attempt + rounds
    → retries rounds c errors randoms attempt ≡ c.max_attempts - 1 - attempt
unfolding retries should_retry
retries_from zero c errors randoms attempt e h = omega arith
retries_from (suc rounds) c errors randoms attempt e h =
    ground (arith, e attempt, retries_from rounds c errors randoms (attempt + 1) e (omega arith))

-- A job whose attempts all fail with retryable errors runs `max_attempts` times, or once if that is 0: its
-- retries and its first run are as many, and then it is never retried again.
pub retries_lem :
    (rounds : ℕ) (c : RetryPolicyConfig) (errors : ℕ → ErrorClass) (randoms : ℕ → Fraction)
    → ((n : ℕ) → is_retryable (errors n) ≡ true)
    → c.max_attempts ≤ rounds
    → retries rounds c errors randoms 0 + 1 ≡ max 1 c.max_attempts
retries_lem rounds c errors randoms e h =
    omega (arith, retries_from rounds c errors randoms 0 e (omega arith))
