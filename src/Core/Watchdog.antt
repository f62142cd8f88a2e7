-- ===== src/Core/Watchdog.antt =====
-- src/core/watchdog.ts. Values and thresholds are in thousandths, since the default rates are fractions.
-- A metric source is a number, and `collect` says what it returns in a tick, or `none` if it throws.
-- A callback is a number; a tick returns the calls it makes. A metric's name is no array index, so
-- entries stand in the order of insertion.
pub mod Levels
pub mod Changes
pub mod Keys
pub mod Pruning
mod Examples
use roboppi.Base.{
  ℕ, suc, ◌+◌, String, Bool, true, false, not, Option, none, some, List, [], ◌∷◌, ◌++◌, ltb, leb,
  ◌==◌, mem, or_default, if◌then◌else◌,
}
use roboppi.Base.Dict
use roboppi.Base.Dict.{Dict}
use roboppi.Base.TextSet

pub data DefenseLevel : Type 0 where
  normal shed throttle circuit_open escalation : DefenseLevel

unfoldable pub defense_order : DefenseLevel → ℕ
defense_order normal = 0
defense_order shed = 1
defense_order throttle = 2
defense_order circuit_open = 3
defense_order escalation = 4

pub record WatchdogThreshold : Type 0 where
  pub warn : ℕ
  pub critical : ℕ

pub record WatchdogConfig : Type 0 where
  pub interval_ms : ℕ
  pub thresholds : Dict WatchdogThreshold

abbrev pub default_watchdog_config : WatchdogConfig
default_watchdog_config = record {
  interval_ms = 1000;
  thresholds =
      ("worker_inflight_count", record { warn = 10000; critical = 20000 })
      ∷ ("worker_queue_lag_ms", record { warn = 5000000; critical = 15000000 })
      ∷ ("worker_timeout_rate", record { warn = 300; critical = 600 })
      ∷ ("worker_cancel_latency_ms", record { warn = 5000000; critical = 15000000 })
      ∷ ("workspace_lock_wait_ms", record { warn = 3000000; critical = 10000000 })
      ∷ [];
}

pub record WatchdogCallbacks : Type 0 where
  pub on_shed : Option ℕ
  pub on_throttle : Option ℕ
  pub on_circuit_open : Option ℕ
  pub on_escalation : Option ℕ

pub record Watchdog : Type 0 where
  pub config : WatchdogConfig
  pub sources : Dict ℕ
  pub timer : Bool
  pub current_level : DefenseLevel
  pub callbacks : WatchdogCallbacks
  pub last_fired_level : Dict DefenseLevel
  pub unseen_count : Dict ℕ

-- `{ ...a, ...b }`, or `Object.assign`.
unfoldable pub assign {ℓ} : {V : Type ℓ} → Dict V → Dict V → Dict V
assign m [] = m
assign m ((k, v) ∷ others) = assign (Dict.set k v m) others

unfoldable pub new : Option ℕ → Dict WatchdogThreshold → Watchdog
new interval_ms thresholds = record {
  config = record {
    interval_ms = or_default interval_ms default_watchdog_config.interval_ms;
    thresholds = assign default_watchdog_config.thresholds thresholds;
  };
  sources = [];
  timer = false;
  current_level = normal;
  callbacks = record {
    on_shed = none;
    on_throttle = none;
    on_circuit_open = none;
    on_escalation = none;
  };
  last_fired_level = [];
  unseen_count = [];
}

unfoldable pub register_metric_source : String → ℕ → Watchdog → Watchdog
register_metric_source name source w = record w { sources = Dict.set name source w.sources }

-- The four setters of callbacks.
unfoldable pub set_callbacks : WatchdogCallbacks → Watchdog → Watchdog
set_callbacks callbacks w = record w { callbacks = callbacks }

unfoldable pub start : Watchdog → Watchdog
start w = record w { timer = true }

unfoldable pub stop : Watchdog → Watchdog
stop w = record w { timer = false }

unfoldable pub assign_read : Dict ℕ → Option (Dict ℕ) → Dict ℕ
assign_read merged none = merged
assign_read merged (some metrics) = assign merged metrics

-- A source that throws is skipped.
unfoldable pub collect_all : (ℕ → Option (Dict ℕ)) → Dict ℕ → Dict ℕ → Dict ℕ
collect_all collect [] merged = merged
collect_all collect ((_, source) ∷ sources) merged =
    collect_all collect sources (assign_read merged (collect source))

is_critical : Option WatchdogThreshold → ℕ → Bool
is_critical none value = false
is_critical (some t) value = leb t.critical value

unfoldable pub count_critical_metrics : Dict WatchdogThreshold → Dict ℕ → ℕ
unfolding is_critical
count_critical_metrics thresholds [] = 0
count_critical_metrics thresholds ((name, value) ∷ metrics) =
    let rest = count_critical_metrics thresholds metrics in
    if is_critical (Dict.get name thresholds) value then suc rest else rest

-- How far the defence goes when a metric is critical.
unfoldable pub critical_level : ℕ → DefenseLevel
critical_level count =
    if leb 3 count then escalation else if leb 2 count then circuit_open else throttle

unfoldable pub metric_level : WatchdogThreshold → ℕ → ℕ → DefenseLevel
metric_level t critical_count value =
    if leb t.critical value
    then critical_level critical_count
    else if leb t.warn value
    then shed
    else normal

unfoldable pub higher : DefenseLevel → DefenseLevel → DefenseLevel
higher level highest = if ltb (defense_order highest) (defense_order level) then level else highest

call_of : Option ℕ → String → ℕ → List (ℕ × String × ℕ)
call_of none metric value = []
call_of (some callback) metric value = (callback, metric, value) ∷ []

unfoldable pub fire_callback : WatchdogCallbacks → DefenseLevel → String → ℕ → List (ℕ × String × ℕ)
unfolding call_of
fire_callback callbacks normal metric value = []
fire_callback callbacks shed metric value = call_of callbacks.on_shed metric value
fire_callback callbacks throttle metric value = call_of callbacks.on_throttle metric value
fire_callback callbacks circuit_open metric value = call_of callbacks.on_circuit_open metric value
fire_callback callbacks escalation metric value = call_of callbacks.on_escalation metric value

-- The state of the loop over the metrics.
pub record Scan : Type 0 where
  pub highest : DefenseLevel
  pub last_fired_level : Dict DefenseLevel
  pub calls : List (ℕ × String × ℕ)

abbrev pub last_level : Dict DefenseLevel → String → DefenseLevel
last_level m name = or_default (Dict.get name m) normal

-- One round of the loop, for a metric with a threshold. Two levels differ if their places in the order do.
unfoldable pub check_metric : WatchdogCallbacks → DefenseLevel → String → ℕ → Scan → Scan
check_metric callbacks level name value s =
    if defense_order level == defense_order (last_level s.last_fired_level name)
    then record s { highest = higher level s.highest }
    else record {
      highest = higher level s.highest;
      last_fired_level = Dict.set name level s.last_fired_level;
      calls = s.calls ++ fire_callback callbacks level name value;
    }

scan_with : WatchdogCallbacks → Option WatchdogThreshold → ℕ → String → ℕ → Scan → Scan
scan_with callbacks none critical_count name value s = s
scan_with callbacks (some t) critical_count name value s =
    check_metric callbacks (metric_level t critical_count value) name value s

-- The loop, with the count of critical metrics, which does not change on the way.
unfoldable pub scan : WatchdogCallbacks → Dict WatchdogThreshold → ℕ → Dict ℕ → Scan → Scan
unfolding scan_with
scan callbacks thresholds critical_count [] s = s
scan callbacks thresholds critical_count ((name, value) ∷ metrics) s =
    scan callbacks thresholds critical_count metrics
      (scan_with callbacks (Dict.get name thresholds) critical_count name value s)

pub record Marks : Type 0 where
  pub last_fired_level : Dict DefenseLevel
  pub unseen_count : Dict ℕ

-- A key of the fired levels that was seen starts to count anew; one that was not for three ticks is dropped.
unfoldable pub prune_key : Bool → String → Marks → Marks
prune_key true key marks = record marks { unseen_count = Dict.delete key marks.unseen_count }
prune_key false key marks =
    let count = or_default (Dict.get key marks.unseen_count) 0 + 1 in
    if leb 3 count
    then record {
      last_fired_level = Dict.delete key marks.last_fired_level;
      unseen_count = Dict.delete key marks.unseen_count;
    }
    else record marks { unseen_count = Dict.set key count marks.unseen_count }

-- `seenKeys` are the names of all metrics.
unfoldable pub prune : Dict ℕ → Dict DefenseLevel → Marks → Marks
prune metrics [] marks = marks
prune metrics ((key, _) ∷ levels) marks =
    prune metrics levels (prune_key (Dict.has key metrics) key marks)

unfoldable pub tick : (ℕ → Option (Dict ℕ)) → Watchdog → List (ℕ × String × ℕ) × Watchdog
tick collect w =
    let metrics = collect_all collect w.sources [] in
    let critical_count = count_critical_metrics w.config.thresholds metrics in
    let s =
      scan w.callbacks w.config.thresholds critical_count metrics
        (record { highest = normal; last_fired_level = w.last_fired_level; calls = [] }) in
    let marks =
      prune metrics s.last_fired_level
        (record { last_fired_level = s.last_fired_level; unseen_count = w.unseen_count }) in
    (
      s.calls,
      record w {
        last_fired_level = marks.last_fired_level;
        unseen_count = marks.unseen_count;
        current_level = s.highest;
      },
    )

abbrev pub get_current_level : Watchdog → DefenseLevel
get_current_level w = w.current_level
