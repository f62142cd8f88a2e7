-- ===== src/Core/Backpressure/Check.antt =====
-- What `check` answers, and that more load never makes it milder.
use roboppi.Base.{ℕ, ◌≤◌, ◌<◌, ◌≡◌, Bool, true, ◌||◌, arith, if◌then◌else◌}
use native.Mathlib.Nat.{mul-le-mul_right}
use roboppi.Core.Backpressure.{
  Fraction, BackpressureConfig, BackpressureMetrics, BackpressureController, BackpressureResponse,
  accept, reject, defer, degrade, reaches, compute_load, check, update_metrics,
}
use roboppi.Core.Backpressure.Loads.{meets, divide-pos, reaches-larger_three}

pub record IsPositive (c : BackpressureConfig) : Type 0 where
  pub permits : 0 < c.max_active_permits
  pub queue : 0 < c.max_queue_depth
  pub latency : 0 < c.max_latency_ms

-- Some metric is at least the threshold's share of its maximum.
abbrev pub overloaded : BackpressureController → Fraction → Bool
overloaded b t =
    meets b.metrics.active_permits b.normalization.max_active_permits t
    || (meets b.metrics.queue_depth b.normalization.max_queue_depth t
        || meets b.metrics.avg_latency_ms b.normalization.max_latency_ms t)

reaches-compute_load :
    (b : BackpressureController) (t : Fraction)
    → IsPositive b.normalization
    → reaches (compute_load b) t ≡ overloaded b t
unfolding compute_load
reaches-compute_load b t p =
    rw
      (
        divide-pos b.metrics.active_permits b.normalization.max_active_permits p.permits,
        divide-pos b.metrics.queue_depth b.normalization.max_queue_depth p.queue,
        divide-pos b.metrics.avg_latency_ms b.normalization.max_latency_ms p.latency,
      )
      (reaches-larger_three _ _ _ _ _ _ t p.permits p.queue p.latency)

-- With no maximum 0 the answer is that of the highest of the three tests, reject, defer and degrade
-- in this order, whose threshold some one metric reaches as a share of its maximum.
pub check_lem :
    (b : BackpressureController)
    → IsPositive b.normalization
    → check b ≡ (
        if overloaded b b.thresholds.reject_threshold
        then reject
        else if overloaded b b.thresholds.defer_threshold
        then defer
        else if overloaded b b.thresholds.degrade_threshold
        then degrade
        else accept)
unfolding check
check_lem b p = rw (
  reaches-compute_load b b.thresholds.reject_threshold p,
  reaches-compute_load b b.thresholds.defer_threshold p,
  reaches-compute_load b b.thresholds.degrade_threshold p,
)

abbrev pub severity : BackpressureResponse → ℕ
severity accept = 0
severity degrade = 1
severity defer = 2
severity reject = 3

pub record IsAtMost (m n : BackpressureMetrics) : Type 0 where
  pub permits : m.active_permits ≤ n.active_permits
  pub queue : m.queue_depth ≤ n.queue_depth
  pub latency : m.avg_latency_ms ≤ n.avg_latency_ms

meets_mono : (n m d : ℕ) (t : Fraction) → n ≤ m → meets n d t ≡ true → meets m d t ≡ true
meets_mono n m d t h e = ground (arith, mul-le-mul_right t.den h)

overloaded_mono :
    (b : BackpressureController) (m n : BackpressureMetrics) (t : Fraction)
    → IsAtMost m n
    → overloaded (record b { metrics = m }) t ≡ true
    → overloaded (record b { metrics = n }) t ≡ true
overloaded_mono b m n t h e = ground (
  arith,
  meets_mono m.active_permits n.active_permits b.normalization.max_active_permits t h.permits,
  meets_mono m.queue_depth n.queue_depth b.normalization.max_queue_depth t h.queue,
  meets_mono m.avg_latency_ms n.avg_latency_ms b.normalization.max_latency_ms t h.latency,
)

-- With no maximum 0, metrics that are all at least as high never get a milder answer, whatever the
-- thresholds.
check_mono :
    (b : BackpressureController) (m n : BackpressureMetrics)
    → IsPositive b.normalization
    → IsAtMost m n
    → severity (check (update_metrics m b)) ≤ severity (check (update_metrics n b))
unfolding update_metrics
check_mono b m n p h =
    rw (check_lem (record b { metrics = m }) p, check_lem (record b { metrics = n }) p)
      (ladder _ _ _ _ _ _ (overloaded_mono b m n _ h) (overloaded_mono b m n _ h)
        (overloaded_mono b m n _ h))
  where
    ladder :
        (x y z x' y' z' : Bool)
        → (x ≡ true → x' ≡ true)
        → (y ≡ true → y' ≡ true)
        → (z ≡ true → z' ≡ true)
        → severity (if x then reject else if y then defer else if z then degrade else accept)
          ≤ severity (if x' then reject else if y' then defer else if z' then degrade else accept)
    ladder x y z x' y' z' f g h = ground arith
