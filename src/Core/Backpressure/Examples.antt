-- ===== src/Core/Backpressure/Examples.antt =====
-- The default thresholds of agentcore.ts, and the theorems at inputs.
use roboppi.Base.{◌≡◌, refl, none, arith}
use roboppi.Core.Backpressure
use roboppi.Core.Backpressure.{
  BackpressureThresholds, BackpressureMetrics, BackpressureController, accept, reject, defer,
  degrade, default_normalization, new, check, update_metrics,
}
use roboppi.Core.Backpressure.Check.{check_lem}

abbrev default_backpressure : BackpressureThresholds
default_backpressure = record {
  reject_threshold = record { num = 1; den = 1 };
  defer_threshold = record { num = 3; den = 4 };
  degrade_threshold = record { num = 1; den = 2 };
}

abbrev busy : BackpressureMetrics
busy = record { active_permits = 10; queue_depth = 800; avg_latency_ms = 20 }

abbrev busier : BackpressureMetrics
busier = record busy { queue_depth = 1000 }

abbrev controller : BackpressureController
controller = record {
  thresholds = default_backpressure;
  normalization = default_normalization;
  metrics = busy;
}

starts_idle :
    check (
      new default_backpressure
        (record { max_active_permits = none; max_queue_depth = none; max_latency_ms = none }))
    ≡ accept
unfolding check Backpressure.compute_load Backpressure.divide Backpressure.larger
    Backpressure.reaches new
starts_idle = refl

check_lem_example : check controller ≡ defer
check_lem_example = check_lem controller (omega arith)
