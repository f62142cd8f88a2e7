-- ===== src/Core/Backpressure.antt =====
-- src/core/backpressure.ts. A load is the quotient of two counts, kept exact: JavaScript rounds it
-- to a double, and `0 / 0` is NaN there and `n / 0` infinite. A threshold is a fraction.
pub mod Loads
pub mod Check
mod Examples
use roboppi.Base.{
  or_default, ℕ, ◌*◌, Bool, true, false, Option, none, some, leb, ◌==◌, if◌then◌else◌,
}

pub data BackpressureResponse : Type 0 where
  accept reject defer degrade : BackpressureResponse

pub record Fraction : Type 0 where
  pub num : ℕ
  pub den : ℕ

pub record BackpressureThresholds : Type 0 where
  pub reject_threshold : Fraction
  pub defer_threshold : Fraction
  pub degrade_threshold : Fraction

pub record BackpressureMetrics : Type 0 where
  pub active_permits : ℕ
  pub queue_depth : ℕ
  pub avg_latency_ms : ℕ

pub record BackpressureConfig : Type 0 where
  pub max_active_permits : ℕ
  pub max_queue_depth : ℕ
  pub max_latency_ms : ℕ

abbrev pub default_normalization : BackpressureConfig
default_normalization = record {
  max_active_permits = 100;
  max_queue_depth = 1000;
  max_latency_ms = 10_000;
}

-- `Partial<BackpressureConfig>`.
pub record PartialConfig : Type 0 where
  pub max_active_permits : Option ℕ
  pub max_queue_depth : Option ℕ
  pub max_latency_ms : Option ℕ

pub record BackpressureController : Type 0 where
  pub thresholds : BackpressureThresholds
  pub normalization : BackpressureConfig
  pub metrics : BackpressureMetrics

unfoldable pub new : BackpressureThresholds → PartialConfig → BackpressureController
new t c = record {
  thresholds = t;
  normalization = record {
    max_active_permits = or_default c.max_active_permits default_normalization.max_active_permits;
    max_queue_depth = or_default c.max_queue_depth default_normalization.max_queue_depth;
    max_latency_ms = or_default c.max_latency_ms default_normalization.max_latency_ms;
  };
  metrics = record { active_permits = 0; queue_depth = 0; avg_latency_ms = 0 };
}

-- A quotient; in `ratio n d` the denominator is not 0.
pub data Load : Type 0 where
  nan infinite : Load
  ratio : ℕ → ℕ → Load

unfoldable pub divide : ℕ → ℕ → Load
divide n d = if d == 0 then (if n == 0 then nan else infinite) else ratio n d

-- `Math.max` of two.
unfoldable pub larger : Load → Load → Load
larger nan b = nan
larger infinite nan = nan
larger infinite infinite = infinite
larger infinite (ratio n d) = infinite
larger (ratio n d) nan = nan
larger (ratio n d) infinite = infinite
larger (ratio n d) (ratio m e) = if leb (n * e) (m * d) then ratio m e else ratio n d

unfoldable pub compute_load : BackpressureController → Load
compute_load b =
    let permit_load = divide b.metrics.active_permits b.normalization.max_active_permits in
    let queue_load = divide b.metrics.queue_depth b.normalization.max_queue_depth in
    let latency_load = divide b.metrics.avg_latency_ms b.normalization.max_latency_ms in
    larger permit_load (larger queue_load latency_load)

-- `load >= threshold`.
unfoldable pub reaches : Load → Fraction → Bool
reaches nan t = false
reaches infinite t = true
reaches (ratio n d) t = leb (t.num * d) (n * t.den)

unfoldable pub check : BackpressureController → BackpressureResponse
check b =
    let load = compute_load b in
    if reaches load b.thresholds.reject_threshold
    then reject
    else if reaches load b.thresholds.defer_threshold
    then defer
    else if reaches load b.thresholds.degrade_threshold
    then degrade
    else accept

unfoldable pub update_metrics :
    BackpressureMetrics → BackpressureController → BackpressureController
update_metrics m b = record b { metrics = m }
