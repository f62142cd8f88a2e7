-- ===== src/Core/Watchdog/Examples.antt =====
-- A watchdog of src/core/watchdog.ts with one source, which stops to report a metric.
use roboppi.Base.{
  ℕ, ◌≡◌, refl, String, Option, none, some, List, [], ◌∷◌, length, leb, if◌then◌else◌, arith,
}
use roboppi.Base.Dict
use roboppi.Base.Dict.{Dict}
use roboppi.Core.Watchdog.{
  DefenseLevel, shed, throttle, Watchdog, new, register_metric_source, set_callbacks, collect_all,
  count_critical_metrics, tick,
}
use roboppi.Core.Watchdog.Levels.{warned, level_for, tick_level_lem}
use roboppi.Core.Watchdog.Changes.{tick_settles}
use roboppi.Core.Watchdog.Pruning.{ticks, forgotten_after_three}

abbrev watched : Watchdog
watched =
    set_callbacks
      (record {
        on_shed = some 1;
        on_throttle = some 2;
        on_circuit_open = none;
        on_escalation = some 4;
      })
      (register_metric_source "s" 0 (new none []))

abbrev high : ℕ → Option (Dict ℕ)
high _ = some (("worker_inflight_count", 25000) ∷ ("worker_timeout_rate", 400) ∷ [])

abbrev silent : ℕ → Option (Dict ℕ)
silent _ = some []

all_open : Unit {0}
unfolding roboppi.Core.Watchdog.new roboppi.Core.Watchdog.assign
    roboppi.Core.Watchdog.register_metric_source roboppi.Core.Watchdog.set_callbacks
    roboppi.Core.Watchdog.assign_read roboppi.Core.Watchdog.collect_all
    roboppi.Core.Watchdog.count_critical_metrics roboppi.Core.Watchdog.critical_level
    roboppi.Core.Watchdog.metric_level roboppi.Core.Watchdog.higher
    roboppi.Core.Watchdog.defense_order roboppi.Core.Watchdog.fire_callback
    roboppi.Core.Watchdog.check_metric roboppi.Core.Watchdog.scan roboppi.Core.Watchdog.prune_key
    roboppi.Core.Watchdog.prune roboppi.Core.Watchdog.tick roboppi.Base.Dict.get
    roboppi.Base.Dict.set roboppi.Base.Dict.has roboppi.Base.Dict.delete
all_open = tt

first_tick :
    ((tick high watched).0
      ≡ (2, "worker_inflight_count", 25000) ∷ (1, "worker_timeout_rate", 400) ∷ [])
    × ((tick high watched).1.current_level ≡ throttle)
unfolding all_open
first_tick = (refl, refl)

tick_level_lem_example :
    (tick high watched).1.current_level
    ≡ level_for
        (count_critical_metrics watched.config.thresholds (collect_all high watched.sources []))
        (warned watched.config.thresholds (collect_all high watched.sources []))
tick_level_lem_example = tick_level_lem high watched

tick_settles_example : (tick high (tick high watched).1).0 ≡ []
tick_settles_example = tick_settles high watched

abbrev seen : Watchdog
seen = (tick high watched).1

forgotten_after_three_example :
    Dict.get "worker_timeout_rate" (ticks (silent ∷ silent ∷ silent ∷ []) seen).last_fired_level
    ≡ none
unfolding all_open
forgotten_after_three_example =
    forgotten_after_three (silent ∷ silent ∷ silent ∷ []) seen "worker_timeout_rate" shed
      (refl, (refl, tt)) refl refl (refl, (refl, (refl, tt)))
