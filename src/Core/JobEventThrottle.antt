-- ===== src/Core/JobEventThrottle.antt =====
-- src/core/job-event-throttle.ts: class JobEventThrottle. A call returns the events that it forwards,
-- and reads the clock once. A timer that is set is the time of `Date.now()` at which its delay is over. The clock
-- that timers follow is another, so it may run at any time.
pub mod Sends
pub mod Spacing
pub mod Latest
pub mod Limits
mod Examples
use roboppi.Base.{
  ℕ, ◌+◌, ◌-◌, Bool, true, false, not, ◌&&◌, Option, none, some, List, [], ◌∷◌, ltb, leb,
  if◌then◌else◌,
}
use roboppi.Core.EventText.{Text, truncate_string}

pub data WorkerEvent : Type 0 where
  stdout stderr : Text → WorkerEvent
  progress : (message : Text) (percent : Option ℕ) → WorkerEvent
  patch : (file_path diff : Text) → WorkerEvent

pub record JobEventThrottle : Type 0 where
  pub event_count : ℕ
  pub truncation_notice_sent : Bool
  pub pending_progress : Option WorkerEvent
  pub progress_timer : Option ℕ
  pub last_progress_forwarded_at : ℕ
  pub forward_stdio : Bool

unfoldable pub new : Bool → JobEventThrottle
new forward_stdio = record {
  event_count = 0;
  truncation_notice_sent = false;
  pending_progress = none;
  progress_timer = none;
  last_progress_forwarded_at = 0;
  forward_stdio = forward_stdio;
}

abbrev pub max_stdio_bytes : ℕ
max_stdio_bytes = 16384

abbrev pub max_patch_bytes : ℕ
max_patch_bytes = 262144

abbrev pub max_events : ℕ
max_events = 500

abbrev pub throttle_ms : ℕ
throttle_ms = 100

-- "(logs truncated)"
abbrev pub notice : WorkerEvent
notice =
    progress
      (40 ∷ 108 ∷ 111 ∷ 103 ∷ 115 ∷ 32 ∷ 116 ∷ 114 ∷ 117 ∷ 110 ∷ 99 ∷ 97 ∷ 116 ∷ 101 ∷ 100 ∷ 41
        ∷ [])
      none

unfoldable pub truncate_event : WorkerEvent → WorkerEvent
truncate_event (stdout data_) = stdout (truncate_string data_ max_stdio_bytes)
truncate_event (stderr data_) = stderr (truncate_string data_ max_stdio_bytes)
truncate_event (progress message percent) =
    progress (truncate_string message max_stdio_bytes) percent
truncate_event (patch file_path diff) = patch file_path (truncate_string diff max_patch_bytes)

abbrev pub is_stdio : WorkerEvent → Bool
is_stdio (stdout _) = true
is_stdio (stderr _) = true
is_stdio (progress _ _) = false
is_stdio (patch _ _) = false

abbrev pub is_progress : WorkerEvent → Bool
is_progress (stdout _) = false
is_progress (stderr _) = false
is_progress (progress _ _) = true
is_progress (patch _ _) = false

-- A timer that is set stays set: `elapsed` is below 100, so it is due 100 ms after the last forward.
unfoldable pub schedule : ℕ → JobEventThrottle → Option ℕ → Option ℕ
schedule now t none = some (now + (throttle_ms + t.last_progress_forwarded_at - now))
schedule now t (some due) = some due

-- `elapsed >= 100`, with `elapsed` below 0 if the clock went back.
unfoldable pub handle_progress :
    ℕ → WorkerEvent → JobEventThrottle → JobEventThrottle × List WorkerEvent
handle_progress now ev t =
    if leb (t.last_progress_forwarded_at + throttle_ms) now
    then (
      record t { last_progress_forwarded_at = now; pending_progress = none; progress_timer = none },
      ev ∷ [],
    )
    else (
      record t { pending_progress = some ev; progress_timer = schedule now t t.progress_timer },
      [],
    )

unfoldable pub forward_with_limit :
    WorkerEvent → JobEventThrottle → JobEventThrottle × List WorkerEvent
forward_with_limit ev t =
    if ltb t.event_count max_events
    then (record t { event_count = t.event_count + 1 }, ev ∷ [])
    else if not t.truncation_notice_sent
    then (record t { truncation_notice_sent = true }, notice ∷ [])
    else (t, [])

unfoldable pub emit : ℕ → WorkerEvent → JobEventThrottle → JobEventThrottle × List WorkerEvent
emit now ev t =
    let truncated = truncate_event ev in
    if not t.forward_stdio && is_stdio ev
    then (t, [])
    else if is_progress truncated
    then handle_progress now truncated t
    else forward_with_limit truncated t

-- The pending event, if there is one.
abbrev pub pending_events : Option WorkerEvent → List WorkerEvent
pending_events none = []
pending_events (some ev) = ev ∷ []

abbrev pub is_set : Option ℕ → Bool
is_set none = false
is_set (some due) = true

-- The callback of the timer.
unfoldable pub flush_at : ℕ → JobEventThrottle → Option WorkerEvent → JobEventThrottle
flush_at now t none = record t { progress_timer = none }
flush_at now t (some ev) = record t {
  progress_timer = none;
  last_progress_forwarded_at = now;
  pending_progress = none;
}

unfoldable pub fire : ℕ → JobEventThrottle → JobEventThrottle × List WorkerEvent
fire now t =
    if is_set t.progress_timer
    then (flush_at now t t.pending_progress, pending_events t.pending_progress)
    else (t, [])

unfoldable pub dispose : JobEventThrottle → JobEventThrottle × List WorkerEvent
dispose t =
    (record t { progress_timer = none; pending_progress = none }, pending_events t.pending_progress)

-- The calls of a throttle, and the timer.
pub data Call : Type 0 where
  emitted : (now : ℕ) (ev : WorkerEvent) → Call
  fired : (now : ℕ) → Call

unfoldable pub step : Call → JobEventThrottle → JobEventThrottle × List WorkerEvent
step (emitted now ev) t = emit now ev t
step (fired now) t = fire now t

unfoldable pub run : List Call → JobEventThrottle → JobEventThrottle
run [] t = t
run (c ∷ cs) t = run cs (step c t).0
