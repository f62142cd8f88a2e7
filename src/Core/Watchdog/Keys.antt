-- ===== src/Core/Watchdog/Keys.antt =====
-- The map of fired levels in src/core/watchdog.ts holds a key once.
use roboppi.Base.{ℕ, String, Bool, true, false, Option, none, some, [], ◌∷◌, arith}
use roboppi.Base.Dict
use roboppi.Base.Dict.{Dict, Unique, get-set, get-delete}
use roboppi.Base.Dict.Sums.{set-Unique, delete-Unique}
use roboppi.Core.Watchdog.{
  DefenseLevel, normal, WatchdogThreshold, WatchdogCallbacks, Watchdog, metric_level, Scan,
  check_metric, scan_with, scan, Marks, prune_key, prune, tick,
}

scan_with-Unique :
    (callbacks : WatchdogCallbacks) (o : Option WatchdogThreshold) (count : ℕ) (name : String)
    (value : ℕ) (s : Scan)
    → Unique s.last_fired_level
    → Unique (scan_with callbacks o count name value s).last_fired_level
unfolding scan_with check_metric
scan_with-Unique callbacks none count name value s u = u
scan_with-Unique callbacks (some t) count name value s u =
    ground (arith, set-Unique name (metric_level t count value) s.last_fired_level u)

pub scan-Unique :
    (callbacks : WatchdogCallbacks) (thresholds : Dict WatchdogThreshold) (count : ℕ)
    (metrics : Dict ℕ) (s : Scan)
    → Unique s.last_fired_level
    → Unique (scan callbacks thresholds count metrics s).last_fired_level
unfolding scan
scan-Unique callbacks thresholds count [] s u = u
scan-Unique callbacks thresholds count ((name, value) ∷ metrics) s u =
    scan-Unique callbacks thresholds count metrics _
      (scan_with-Unique callbacks (Dict.get name thresholds) count name value s u)

prune_key-Unique :
    (b : Bool) (key : String) (marks : Marks)
    → Unique marks.last_fired_level
    → Unique (prune_key b key marks).last_fired_level
unfolding prune_key
prune_key-Unique true key marks u = u
prune_key-Unique false key marks u = ground (arith, delete-Unique key marks.last_fired_level u)

prune-Unique :
    (metrics : Dict ℕ) (levels : Dict DefenseLevel) (marks : Marks)
    → Unique marks.last_fired_level
    → Unique (prune metrics levels marks).last_fired_level
unfolding prune
prune-Unique metrics [] marks u = u
prune-Unique metrics ((j, _) ∷ levels) marks u =
    prune-Unique metrics levels _ (prune_key-Unique (Dict.has j metrics) j marks u)

pub tick-Unique :
    (collect : ℕ → Option (Dict ℕ)) (w : Watchdog)
    → Unique w.last_fired_level
    → Unique (tick collect w).1.last_fired_level
unfolding tick
tick-Unique collect w u = prune-Unique _ _ _ (
    scan-Unique w.callbacks w.config.thresholds _ _
      (record { highest = normal; last_fired_level = w.last_fired_level; calls = [] }) u)
