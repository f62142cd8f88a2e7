-- ===== src/Core/JobEventThrottle/Spacing.antt =====
-- When src/core/job-event-throttle.ts forwards progress events.
use roboppi.Base.{
  ℕ, ◌+◌, ◌≤◌, ◌≡◌, refl, ap, inl, inr, Bool, true, false, Option, none, some, List, [], ◌∷◌, ◌++◌,
  arith, leb, Bool-cases, leb→le,
}
use roboppi.Core.JobEventThrottle.{
  WorkerEvent, JobEventThrottle, new, throttle_ms, truncate_event, is_progress, handle_progress,
  forward_with_limit, emit, pending_events, flush_at, is_set, fire, Call, emitted, fired, step, run,
}
use roboppi.Core.JobEventThrottle.Sends.{
  Send, stamp, sends_of, sends, IsTimed, step-IsTimed, run-IsTimed, new-IsTimed,
  is_progress-truncate_event, emit-progress,
}

-- Each at least 100 ms after the one before.
abbrev pub Spaced : ℕ → List Send → Type 0
Spaced last [] = Unit
Spaced last ((now, ev) ∷ xs) = (last + throttle_ms ≤ now) × Spaced now xs

-- A call on the other path does not touch the time of the last progress event.
other_keeps :
    (now : ℕ) (ev : WorkerEvent) (t : JobEventThrottle)
    → is_progress ev ≡ false
    → (emit now ev t).0.last_progress_forwarded_at ≡ t.last_progress_forwarded_at
unfolding emit forward_with_limit
other_keeps now ev t h = ground (arith, is_progress-truncate_event ev)

handle_progress-Spaced :
    (now : ℕ) (ev : WorkerEvent) (t : JobEventThrottle) (xs : List Send)
    → Spaced (handle_progress now ev t).0.last_progress_forwarded_at xs
    → Spaced t.last_progress_forwarded_at (stamp now (handle_progress now ev t).1 ++ xs)
unfolding handle_progress
handle_progress-Spaced now ev t xs k =
    elim (Bool-cases (leb (t.last_progress_forwarded_at + throttle_ms) now)) [
      | inl go ↦ rw go (leb→le (t.last_progress_forwarded_at + throttle_ms) now go, rw go at k)
      | inr wait ↦ rw wait (rw wait at k)
    ]

flush_at-Spaced :
    (now : ℕ) (t : JobEventThrottle) (o : Option WorkerEvent) (xs : List Send)
    → t.last_progress_forwarded_at + throttle_ms ≤ now
    → Spaced (flush_at now t o).last_progress_forwarded_at xs
    → Spaced t.last_progress_forwarded_at (stamp now (pending_events o) ++ xs)
unfolding flush_at
flush_at-Spaced now t none xs late k = k
flush_at-Spaced now t (some ev) xs late k = (late, k)

-- No timer runs before its delay is over by the clock that the throttle reads.
abbrev pub IsLate : ℕ → Option ℕ → Type 0
IsLate now none = Unit
IsLate now (some due) = due ≤ now

abbrev pub IsPunctual : Call → JobEventThrottle → Type 0
IsPunctual (emitted now ev) t = Unit
IsPunctual (fired now) t = IsLate now t.progress_timer

abbrev pub AllPunctual : List Call → JobEventThrottle → Type 0
AllPunctual [] t = Unit
AllPunctual (c ∷ cs) t = IsPunctual c t × AllPunctual cs (step c t).0

late :
    (now n : ℕ) (o : Option ℕ)
    → ((due : ℕ) → o ≡ some due → due ≡ n)
    → is_set o ≡ true
    → IsLate now o
    → n ≤ now
late now n none h e l = absurd (ground arith)
late now n (some due) h e l = omega (arith, h due refl, l)

fire-Spaced :
    (now : ℕ) (t : JobEventThrottle) (xs : List Send)
    → IsTimed t
    → IsLate now t.progress_timer
    → Spaced (fire now t).0.last_progress_forwarded_at xs
    → Spaced t.last_progress_forwarded_at (stamp now (fire now t).1 ++ xs)
unfolding fire
fire-Spaced now t xs h l k = elim (Bool-cases (is_set t.progress_timer)) [
  | inl set ↦ rw set (
      flush_at-Spaced now t t.pending_progress xs
        (late now (t.last_progress_forwarded_at + throttle_ms) t.progress_timer h.timer set l)
        (rw set at k))
  | inr unset ↦ rw unset (rw unset at k)
]

step-Spaced :
    (c : Call) (t : JobEventThrottle) (xs : List Send)
    → IsTimed t
    → IsPunctual c t
    → Spaced (step c t).0.last_progress_forwarded_at xs
    → Spaced t.last_progress_forwarded_at (sends_of c t ++ xs)
unfolding sends_of step
step-Spaced (emitted now ev) t xs h l k = elim (Bool-cases (is_progress ev)) [
  | inl up ↦
      rw (up, emit-progress now ev t up)
        (handle_progress-Spaced now (truncate_event ev) t xs (rw (emit-progress now ev t up) at k))
  | inr other ↦ rw other (rw (other_keeps now ev t other) at k)
]
step-Spaced (fired now) t xs h l k = fire-Spaced now t xs h l k

sends-Spaced :
    (cs : List Call) (t : JobEventThrottle)
    → IsTimed t
    → AllPunctual cs t
    → Spaced t.last_progress_forwarded_at (sends cs t)
unfolding sends
sends-Spaced [] t h p = tt
sends-Spaced (c ∷ cs) t h (p, ps) =
    step-Spaced c t (sends cs (step c t).0) h p
      (sends-Spaced cs (step c t).0 (step-IsTimed c t h) ps)

-- The progress events of its callers that a new throttle forwards before `dispose`, so without its own notice that
-- the logs are truncated, are at least 100 ms apart, and the first is at 100 or later, whatever the order of
-- the calls and the times of the clock, if no timer runs before the clock has reached its delay.
pub sends-new-Spaced :
    (forward_stdio : Bool) (cs : List Call)
    → AllPunctual cs (new forward_stdio)
    → Spaced 0 (sends cs (new forward_stdio))
unfolding new
sends-new-Spaced forward_stdio cs = sends-Spaced cs (new forward_stdio) (new-IsTimed forward_stdio)

set_if_waiting :
    (timer : Option ℕ) (p : Option WorkerEvent) (ev : WorkerEvent)
    → (timer ≡ none → p ≡ none)
    → p ≡ some ev
    → is_set timer ≡ true
set_if_waiting none p ev h e = absurd (ground (arith, h refl))
set_if_waiting (some due) p ev h e = refl

waiting :
    (t : JobEventThrottle) (ev : WorkerEvent) (now : ℕ)
    → IsTimed t
    → t.pending_progress ≡ some ev
    → (fire now t).1 ≡ ev ∷ []
unfolding fire
waiting t ev now h e =
    rw (set_if_waiting t.progress_timer t.pending_progress ev h.waits e) (ap pending_events e)

-- An event that waits after any calls has its timer set, and the timer forwards it when it runs.
pending_forwarded :
    (forward_stdio : Bool) (cs : List Call) (ev : WorkerEvent) (now : ℕ)
    → (run cs (new forward_stdio)).pending_progress ≡ some ev
    → (fire now (run cs (new forward_stdio))).1 ≡ ev ∷ []
pending_forwarded forward_stdio cs ev now =
    waiting (run cs (new forward_stdio)) ev now
      (run-IsTimed cs (new forward_stdio) (new-IsTimed forward_stdio))
