-- ===== src/Core/Watchdog/Levels.antt =====
-- The level that a tick of src/core/watchdog.ts ends with.
use roboppi.Base.{
  ℕ, ◌≤◌, ◌≡◌, max, refl, sym, ap, ◌∙◌, String, Bool, false, ◌||◌, Option, none, some, [], ◌∷◌, ltb,
  leb, ◌==◌, arith, if◌then◌else◌,
}
use roboppi.Base.Dict
use roboppi.Base.Dict.{Dict}
use roboppi.Core.Watchdog.{
  DefenseLevel, normal, shed, throttle, circuit_open, escalation, defense_order, WatchdogThreshold,
  WatchdogCallbacks, Watchdog, collect_all, is_critical, count_critical_metrics, critical_level,
  metric_level, higher, Scan, check_metric, scan_with, scan, tick,
}

is_warned : Option WatchdogThreshold → ℕ → Bool
is_warned none value = false
is_warned (some t) value = leb t.warn value

-- Some metric has reached its warning threshold.
pub warned : Dict WatchdogThreshold → Dict ℕ → Bool
warned thresholds [] = false
warned thresholds ((name, value) ∷ metrics) =
    is_warned (Dict.get name thresholds) value || warned thresholds metrics

-- The level by the number of critical metrics, and by whether some metric warns.
pub level_for : ℕ → Bool → DefenseLevel
level_for critical warn =
    if leb 3 critical
    then escalation
    else if leb 2 critical
    then circuit_open
    else if leb 1 critical
    then throttle
    else if warn
    then shed
    else normal

level_at : ℕ → DefenseLevel
level_at n =
    if n == 0
    then normal
    else if n == 1
    then shed
    else if n == 2
    then throttle
    else if n == 3
    then circuit_open
    else escalation

level_at-defense_order : (l : DefenseLevel) → level_at (defense_order l) ≡ l
unfolding level_at defense_order
level_at-defense_order normal = refl
level_at-defense_order shed = refl
level_at-defense_order throttle = refl
level_at-defense_order circuit_open = refl
level_at-defense_order escalation = refl

-- Different levels have different places in the order.
pub defense_order_inj : (a b : DefenseLevel) → defense_order a ≡ defense_order b → a ≡ b
defense_order_inj a b e = sym (level_at-defense_order a) ∙ ap level_at e ∙ level_at-defense_order b

defense_order-higher :
    (a b : DefenseLevel) → defense_order (higher a b) ≡ max (defense_order a) (defense_order b)
unfolding higher
defense_order-higher a b = ground arith

-- What the metrics from here on raise the level to.
rises : ℕ → ℕ → Bool → ℕ
rises critical_count critical warn =
    if ltb 0 critical then defense_order (critical_level critical_count) else if warn then 1 else 0

highest-check_metric :
    (callbacks : WatchdogCallbacks) (level : DefenseLevel) (name : String) (value : ℕ) (s : Scan)
    → (check_metric callbacks level name value s).highest ≡ higher level s.highest
unfolding check_metric
highest-check_metric callbacks level name value s = ground arith

order-metric_level :
    (t : WatchdogThreshold) (count value : ℕ)
    → defense_order (metric_level t count value) ≡ (
        if leb t.critical value
        then defense_order (critical_level count)
        else if leb t.warn value
        then 1
        else 0)
unfolding metric_level defense_order
order-metric_level t count value = ground arith

critical_above : (count : ℕ) → 2 ≤ defense_order (critical_level count)
unfolding critical_level defense_order
critical_above count = ground arith

module _ (callbacks : WatchdogCallbacks) (thresholds : Dict WatchdogThreshold) (count : ℕ) where
  order-scan_with :
      (o : Option WatchdogThreshold) (name : String) (value : ℕ) (s : Scan)
      → defense_order (scan_with callbacks o count name value s).highest
        ≡ max (defense_order s.highest) (
            if is_critical o value
            then defense_order (critical_level count)
            else if is_warned o value
            then 1
            else 0)
  unfolding scan_with is_critical is_warned
  order-scan_with none name value s = ground arith
  order-scan_with (some t) name value s =
      ap defense_order (highest-check_metric callbacks (metric_level t count value) name value s)
      ∙ omega (
        arith,
        defense_order-higher (metric_level t count value) s.highest,
        order-metric_level t count value,
      )

  order-scan :
      (metrics : Dict ℕ) (s : Scan)
      → defense_order (scan callbacks thresholds count metrics s).highest
        ≡ max
            (defense_order s.highest)
            (rises count (count_critical_metrics thresholds metrics) (warned thresholds metrics))
  unfolding scan count_critical_metrics warned rises
  order-scan [] s = ground arith
  order-scan ((name, value) ∷ metrics) s = ground (
    arith,
    critical_above count,
    order-scan_with (Dict.get name thresholds) name value s,
    order-scan metrics (scan_with callbacks (Dict.get name thresholds) count name value s),
  )

rises-level_for :
    (count : ℕ) (warn : Bool) → rises count count warn ≡ defense_order (level_for count warn)
unfolding rises level_for defense_order critical_level
rises-level_for count warn = ground arith

from_zero : (n : ℕ) → max (defense_order normal) n ≡ n
unfolding defense_order
from_zero n = omega arith

-- A tick ends with the level for its metrics: `escalation` if three or more of them are critical,
-- `circuit_open` if two are, `throttle` if one is, else `shed` if some metric has reached its warning
-- threshold, and `normal` otherwise.
pub tick_level_lem :
    (collect : ℕ → Option (Dict ℕ)) (w : Watchdog)
    → let metrics = collect_all collect w.sources [] in
      (tick collect w).1.current_level
      ≡ level_for
          (count_critical_metrics w.config.thresholds metrics)
          (warned w.config.thresholds metrics)
unfolding tick
tick_level_lem collect w =
    let metrics = collect_all collect w.sources [] in
    let count = count_critical_metrics w.config.thresholds metrics in
    let start : Scan = record {
      highest = normal;
      last_fired_level = w.last_fired_level;
      calls = [];
    } in
    defense_order_inj (scan w.callbacks w.config.thresholds count metrics start).highest
      (level_for count (warned w.config.thresholds metrics))
      (order-scan w.callbacks w.config.thresholds count metrics start
        ∙ from_zero _
        ∙ rises-level_for count (warned w.config.thresholds metrics))
