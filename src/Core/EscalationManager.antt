-- ===== src/Core/EscalationManager.antt =====
-- src/core/escalation-manager.ts. A listener is a number; `evaluate` returns
-- the calls of the listeners beside the events. A listener does not call the manager.
pub mod Keyed
pub mod Picked
pub mod Kinds
pub mod Failing
pub mod Stored
pub mod Window
pub mod Reports
mod Examples
use roboppi.Base.{
  ℕ, suc, ◌+◌, ◌-◌, ◌*◌, String, Bool, true, false, Option, none, some, List, [], ◌∷◌, ◌++◌, length,
  ltb, leb, or_default, if◌then◌else◌,
}
use roboppi.Base.Dict
use roboppi.Base.Dict.{Dict}
use roboppi.Base.TextSet
use roboppi.Core.Escalation.{
  EscalationEvent, worker_kind, workspace, global, isolate, stop, warning, error, fatal, crashed,
  ghost_process, not_converging, multiple_kinds,
}

pub record EscalationManagerConfig : Type 0 where
  pub crash_threshold : ℕ
  pub cancel_timeout_ms : ℕ
  pub latest_wins_threshold : ℕ

abbrev pub default_config : EscalationManagerConfig
default_config = record {
  crash_threshold = 5;
  cancel_timeout_ms = 30000;
  latest_wins_threshold = 3;
}

pub record EscalationManager : Type 0 where
  pub config : EscalationManagerConfig
  pub worker_crashes : Dict (List ℕ)
  pub cancel_timeouts : Dict ℕ
  pub latest_wins_counts : Dict ℕ
  pub history : List EscalationEvent
  pub listeners : List ℕ

unfoldable pub new : EscalationManagerConfig → EscalationManager
new config = record {
  config = config;
  worker_crashes = [];
  cancel_timeouts = [];
  latest_wins_counts = [];
  history = [];
  listeners = [];
}

unfoldable pub record_worker_crash : String → ℕ → EscalationManager → EscalationManager
record_worker_crash kind now m = record m {
  worker_crashes =
      Dict.set kind (or_default (Dict.get kind m.worker_crashes) [] ++ now ∷ []) m.worker_crashes;
}

unfoldable pub record_cancel_timeout : String → EscalationManager → EscalationManager
record_cancel_timeout kind m = record m {
  cancel_timeouts =
      Dict.set kind (or_default (Dict.get kind m.cancel_timeouts) 0 + 1) m.cancel_timeouts;
}

unfoldable pub record_latest_wins : String → EscalationManager → EscalationManager
record_latest_wins workspace_ref m = record m {
  latest_wins_counts =
      Dict.set workspace_ref (or_default (Dict.get workspace_ref m.latest_wins_counts) 0 + 1)
        m.latest_wins_counts;
}

unfoldable pub on_escalation : ℕ → EscalationManager → EscalationManager
on_escalation callback m = record m { listeners = m.listeners ++ callback ∷ [] }

-- `crashes.filter((c) => c.timestamp > windowStart)`.
unfoldable pub recent : ℕ → List ℕ → List ℕ
recent timestamp [] = []
recent timestamp (c ∷ cs) =
    let rest = recent timestamp cs in if ltb timestamp (c + 60000) then c ∷ rest else rest

-- The entries are replaced one by one, in place.
unfoldable pub trim_crashes : ℕ → Dict (List ℕ) → Dict (List ℕ)
trim_crashes timestamp [] = []
trim_crashes timestamp ((kind, crashes) ∷ m) =
    (kind, recent timestamp crashes) ∷ trim_crashes timestamp m

abbrev pub crash_event : ℕ → ℕ → String → List ℕ → EscalationEvent
crash_event threshold timestamp kind crashes = record {
  scope = worker_kind;
  action = isolate;
  target = kind;
  reason = crashed kind (length crashes) threshold;
  timestamp = timestamp;
  severity = error;
}

-- On trimmed entries.
unfoldable pub crash_events : ℕ → ℕ → Dict (List ℕ) → List EscalationEvent
crash_events threshold timestamp [] = []
crash_events threshold timestamp ((kind, crashes) ∷ m) =
    let rest = crash_events threshold timestamp m in
    if leb threshold (length crashes)
    then crash_event threshold timestamp kind crashes ∷ rest
    else rest

abbrev pub timeout_event : ℕ → String → ℕ → EscalationEvent
timeout_event timestamp kind count = record {
  scope = worker_kind;
  action = isolate;
  target = kind;
  reason = ghost_process kind count;
  timestamp = timestamp;
  severity = warning;
}

unfoldable pub timeout_events : ℕ → Dict ℕ → List EscalationEvent
timeout_events timestamp [] = []
timeout_events timestamp ((kind, count) ∷ m) =
    let rest = timeout_events timestamp m in
    if ltb 0 count then timeout_event timestamp kind count ∷ rest else rest

-- What is left of a count when that of the snapshot is taken away.
abbrev pub take_away : String → ℕ → Option ℕ → Dict ℕ → Dict ℕ
take_away kind count none timeouts = timeouts
take_away kind count (some current) timeouts =
    if leb current count
    then Dict.delete kind timeouts
    else Dict.set kind (current - count) timeouts

unfoldable pub remove_processed : Dict ℕ → Dict ℕ → Dict ℕ
remove_processed [] timeouts = timeouts
remove_processed ((kind, count) ∷ snapshot) timeouts =
    remove_processed snapshot (take_away kind count (Dict.get kind timeouts) timeouts)

abbrev pub latest_wins_event : ℕ → ℕ → String → ℕ → EscalationEvent
latest_wins_event threshold timestamp ref count = record {
  scope = workspace;
  action = stop;
  target = ref;
  reason = not_converging ref count threshold;
  timestamp = timestamp;
  severity = error;
}

unfoldable pub latest_wins_events : ℕ → ℕ → Dict ℕ → List EscalationEvent
latest_wins_events threshold timestamp [] = []
latest_wins_events threshold timestamp ((ref, count) ∷ m) =
    let rest = latest_wins_events threshold timestamp m in
    if leb threshold count then latest_wins_event threshold timestamp ref count ∷ rest else rest

unfoldable pub add_crashing : ℕ → ℕ → Dict (List ℕ) → List String → List String
add_crashing threshold timestamp [] kinds = kinds
add_crashing threshold timestamp ((kind, crashes) ∷ m) kinds =
    add_crashing threshold timestamp m
      (if leb threshold (length (recent timestamp crashes)) then TextSet.add kind kinds else kinds)

-- The keys of the snapshot, each looked up in it again.
unfoldable pub add_timing_out : Dict ℕ → Dict ℕ → List String → List String
add_timing_out snapshot [] kinds = kinds
add_timing_out snapshot ((kind, _) ∷ m) kinds =
    add_timing_out snapshot m
      (if ltb 0 (or_default (Dict.get kind snapshot) 0) then TextSet.add kind kinds else kinds)

abbrev pub global_event : ℕ → List String → EscalationEvent
global_event timestamp kinds = record {
  scope = global;
  action = stop;
  target = "system";
  reason = multiple_kinds kinds;
  timestamp = timestamp;
  severity = fatal;
}

unfoldable pub global_events : ℕ → List String → List EscalationEvent
global_events timestamp kinds =
    if leb 2 (length kinds) then global_event timestamp kinds ∷ [] else []

unfoldable pub failing_kinds : ℕ → ℕ → Dict (List ℕ) → Dict ℕ → List String
failing_kinds threshold timestamp crashes snapshot =
    add_timing_out snapshot snapshot (add_crashing threshold timestamp crashes [])

calls_of : EscalationEvent → List ℕ → List (ℕ × EscalationEvent)
calls_of event [] = []
calls_of event (listener ∷ listeners) = (listener, event) ∷ calls_of event listeners

-- Every listener hears each event, event by event.
unfoldable pub notify_all : List EscalationEvent → List ℕ → List (ℕ × EscalationEvent)
unfolding calls_of
notify_all [] listeners = []
notify_all (event ∷ events) listeners = calls_of event listeners ++ notify_all events listeners

pub record Evaluation : Type 0 where
  pub events : List EscalationEvent
  pub calls : List (ℕ × EscalationEvent)
  pub manager : EscalationManager

unfoldable pub evaluate : ℕ → EscalationManager → Evaluation
evaluate now m =
    let trimmed = trim_crashes now m.worker_crashes in
    let events : List EscalationEvent =
      crash_events m.config.crash_threshold now trimmed
      ++ timeout_events now m.cancel_timeouts
      ++ latest_wins_events m.config.latest_wins_threshold now m.latest_wins_counts
      ++ global_events now (failing_kinds m.config.crash_threshold now trimmed m.cancel_timeouts) in
    record {
      events = events;
      calls = notify_all events m.listeners;
      manager = record m {
        worker_crashes = trimmed;
        cancel_timeouts = remove_processed m.cancel_timeouts m.cancel_timeouts;
        history = m.history ++ events;
      };
    }

unfoldable pub get_history : EscalationManager → List EscalationEvent
get_history m = m.history

unfoldable pub reset : EscalationManager → EscalationManager
reset m = record m {
  worker_crashes = [];
  cancel_timeouts = [];
  latest_wins_counts = [];
  history = [];
}

-- The calls on a manager in use, those that read the clock with the time.
pub data Call : Type 0 where
  crashes : String → ℕ → Call
  times_out : String → Call
  replaces : String → Call
  listens : ℕ → Call
  evaluates : ℕ → Call
  resets : Call

unfoldable pub step : Call → EscalationManager → EscalationManager
step (crashes kind now) m = record_worker_crash kind now m
step (times_out kind) m = record_cancel_timeout kind m
step (replaces ref) m = record_latest_wins ref m
step (listens callback) m = on_escalation callback m
step (evaluates now) m = (evaluate now m).manager
step resets m = reset m

unfoldable pub run : List Call → EscalationManager → EscalationManager
run [] m = m
run (c ∷ cs) m = run cs (step c m)
