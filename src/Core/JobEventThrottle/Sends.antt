-- ===== src/Core/JobEventThrottle/Sends.antt =====
-- The progress events that src/core/job-event-throttle.ts forwards for a caller: when, and which. Its own notice
-- that the logs are truncated is an event of the same type, on the path of the other events.
use roboppi.Base.{
  ℕ, ◌+◌, ◌≡◌, refl, inl, inr, Bool, true, false, not, ◌&&◌, none, some, List, [], ◌∷◌, ◌++◌, arith,
  if◌then◌else◌, Bool-cases,
}
use roboppi.Core.JobEventThrottle.{
  WorkerEvent, stdout, stderr, progress, patch, JobEventThrottle, new, throttle_ms, truncate_event,
  is_stdio, is_progress, schedule, handle_progress, forward_with_limit, emit, flush_at, fire, Call,
  emitted, fired, step, run,
}

-- The calls that forward progress events; the others forward at most the notice.
abbrev pub is_progress_call : Call → Bool
is_progress_call (emitted now ev) = is_progress ev
is_progress_call (fired now) = true

abbrev pub time_of : Call → ℕ
time_of (emitted now ev) = now
time_of (fired now) = now

abbrev pub Send : Type 0
Send = ℕ × WorkerEvent

abbrev pub stamp : ℕ → List WorkerEvent → List Send
stamp now [] = []
stamp now (ev ∷ evs) = (now, ev) ∷ stamp now evs

unfoldable pub sends_of : Call → JobEventThrottle → List Send
sends_of c t = if is_progress_call c then stamp (time_of c) (step c t).1 else []

-- The progress events that the calls forward, each with its time, but for the notice.
unfoldable pub sends : List Call → JobEventThrottle → List Send
sends [] t = []
sends (c ∷ cs) t = sends_of c t ++ sends cs (step c t).0

-- The timer is due 100 ms after the last forward, and it is set if an event waits.
pub record IsTimed (t : JobEventThrottle) : Type 0 where
  pub timer :
      (due : ℕ) → t.progress_timer ≡ some due → due ≡ t.last_progress_forwarded_at + throttle_ms
  pub waits : t.progress_timer ≡ none → t.pending_progress ≡ none

pub is_progress-truncate_event :
    (ev : WorkerEvent) → is_progress (truncate_event ev) ≡ is_progress ev
unfolding truncate_event
is_progress-truncate_event (stdout x) = refl
is_progress-truncate_event (stderr x) = refl
is_progress-truncate_event (progress x p) = refl
is_progress-truncate_event (patch x y) = refl

handle_progress-IsTimed :
    (now : ℕ) (ev : WorkerEvent) (t : JobEventThrottle)
    → IsTimed t
    → IsTimed (handle_progress now ev t).0
unfolding handle_progress schedule
handle_progress-IsTimed now ev t h = record {
  timer = λ due e. ground (arith, h.timer due, h.timer);
  waits = λ e. ground (arith, h.waits);
}

forward_with_limit-IsTimed :
    (ev : WorkerEvent) (t : JobEventThrottle) → IsTimed t → IsTimed (forward_with_limit ev t).0
unfolding forward_with_limit
forward_with_limit-IsTimed ev t h = record {
  timer = λ due e. ground (arith, h.timer due);
  waits = λ e. ground (arith, h.waits);
}

emit-IsTimed :
    (now : ℕ) (ev : WorkerEvent) (t : JobEventThrottle) → IsTimed t → IsTimed (emit now ev t).0
unfolding emit
emit-IsTimed now ev t h =
    let new_ev = truncate_event ev in
    elim (Bool-cases (not t.forward_stdio && is_stdio ev)) [
      | inl drop ↦ rw drop h
      | inr keep ↦ elim (Bool-cases (is_progress new_ev)) [
        | inl up ↦ rw (keep, up) (handle_progress-IsTimed now new_ev t h)
        | inr other ↦ rw (keep, other) (forward_with_limit-IsTimed new_ev t h)
      ]
    ]

fire-IsTimed : (now : ℕ) (t : JobEventThrottle) → IsTimed t → IsTimed (fire now t).0
unfolding fire flush_at
fire-IsTimed now t h = record {
  timer = λ due e. ground (arith, h.timer due);
  waits = λ e. ground (arith, h.waits);
}

pub step-IsTimed : (c : Call) (t : JobEventThrottle) → IsTimed t → IsTimed (step c t).0
unfolding step
step-IsTimed (emitted now ev) t h = emit-IsTimed now ev t h
step-IsTimed (fired now) t h = fire-IsTimed now t h

-- A progress event passes the filter.
pub emit-progress :
    (now : ℕ) (ev : WorkerEvent) (t : JobEventThrottle)
    → is_progress ev ≡ true
    → emit now ev t ≡ handle_progress now (truncate_event ev) t
unfolding emit truncate_event
emit-progress now (stdout x) t h = absurd (ground arith)
emit-progress now (stderr x) t h = absurd (ground arith)
emit-progress now (progress x p) t h =
    let keep : (not t.forward_stdio && false) ≡ false = ground arith in rw keep refl
emit-progress now (patch x y) t h = absurd (ground arith)

pub new-IsTimed : (forward_stdio : Bool) → IsTimed (new forward_stdio)
unfolding new
new-IsTimed forward_stdio = record { timer = λ due e. ground arith; waits = λ e. refl }

pub run-IsTimed : (cs : List Call) (t : JobEventThrottle) → IsTimed t → IsTimed (run cs t)
unfolding run
run-IsTimed [] t h = h
run-IsTimed (c ∷ cs) t h = run-IsTimed cs (step c t).0 (step-IsTimed c t h)
