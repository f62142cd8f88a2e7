-- ===== src/Core/JobEventThrottle/Latest.antt =====
-- src/core/job-event-throttle.ts never loses the newest progress event.
use roboppi.Base.{
  ℕ, ◌+◌, ◌≡◌, refl, ap, sym, ◌∙◌, inl, inr, Bool, false, Option, none, some, List, [], ◌∷◌, ◌++◌,
  arith, leb, if◌then◌else◌, Bool-cases,
}
use roboppi.Core.JobEventThrottle.{
  WorkerEvent, JobEventThrottle, new, throttle_ms, truncate_event, is_progress, handle_progress,
  forward_with_limit, emit, pending_events, flush_at, is_set, fire, dispose, Call, emitted, fired,
  step, run,
}
use roboppi.Core.JobEventThrottle.Sends.{
  Send, stamp, sends_of, sends, emit-progress, is_progress-truncate_event,
}

-- The newest progress event that a caller emits, as it is forwarded.
abbrev pub newest_emitted : Option WorkerEvent → List Call → Option WorkerEvent
newest_emitted o [] = o
newest_emitted o (emitted now ev ∷ cs) =
    newest_emitted (if is_progress ev then some (truncate_event ev) else o) cs
newest_emitted o (fired now ∷ cs) = newest_emitted o cs

-- The last event that is sent.
abbrev pub last_sent : Option WorkerEvent → List Send → Option WorkerEvent
last_sent o [] = o
last_sent o ((now, ev) ∷ xs) = last_sent (some ev) xs

abbrev waiting_or : Option WorkerEvent → Option WorkerEvent → Option WorkerEvent
waiting_or none o = o
waiting_or (some ev) o = some ev

last_sent-append :
    (o : Option WorkerEvent) (xs ys : List Send)
    → last_sent o (xs ++ ys) ≡ last_sent (last_sent o xs) ys
last_sent-append o [] ys = refl
last_sent-append o ((now, ev) ∷ xs) ys = last_sent-append (some ev) xs ys

abbrev newest_after : Call → Option WorkerEvent → Option WorkerEvent
newest_after (emitted now ev) o = if is_progress ev then some (truncate_event ev) else o
newest_after (fired now) o = o

newest_emitted-step :
    (c : Call) (cs : List Call) (o : Option WorkerEvent)
    → newest_emitted o (c ∷ cs) ≡ newest_emitted (newest_after c o) cs
newest_emitted-step (emitted now ev) cs o = refl
newest_emitted-step (fired now) cs o = refl

other_keeps :
    (now : ℕ) (ev : WorkerEvent) (t : JobEventThrottle)
    → is_progress ev ≡ false
    → (emit now ev t).0.pending_progress ≡ t.pending_progress
unfolding emit forward_with_limit
other_keeps now ev t h = ground (arith, is_progress-truncate_event ev)

handle_progress_newest :
    (now : ℕ) (ev : WorkerEvent) (t : JobEventThrottle) (o : Option WorkerEvent)
    → waiting_or
        (handle_progress now ev t).0.pending_progress
        (last_sent o (stamp now (handle_progress now ev t).1))
      ≡ some ev
unfolding handle_progress
handle_progress_newest now ev t o =
    elim (Bool-cases (leb (t.last_progress_forwarded_at + throttle_ms) now)) [
      | inl go ↦ rw go refl
      | inr wait ↦ rw wait refl
    ]

flush_at_newest :
    (now : ℕ) (t : JobEventThrottle) (p o : Option WorkerEvent)
    → t.pending_progress ≡ p
    → waiting_or (flush_at now t p).pending_progress (last_sent o (stamp now (pending_events p)))
      ≡ waiting_or p o
unfolding flush_at
flush_at_newest now t none o e = ap (λ p. waiting_or p o) e
flush_at_newest now t (some ev) o e = refl

step_newest :
    (c : Call) (t : JobEventThrottle) (o : Option WorkerEvent)
    → waiting_or (step c t).0.pending_progress (last_sent o (sends_of c t))
      ≡ newest_after c (waiting_or t.pending_progress o)
unfolding sends_of step fire
step_newest (emitted now ev) t o = elim (Bool-cases (is_progress ev)) [
  | inl up ↦ rw (up, emit-progress now ev t up) (handle_progress_newest now (truncate_event ev) t o)
  | inr other ↦ rw (other, other_keeps now ev t other) refl
]
step_newest (fired now) t o = elim (Bool-cases (is_set t.progress_timer)) [
  | inl due ↦ rw due (flush_at_newest now t t.pending_progress o refl)
  | inr wait ↦ rw wait refl
]

sends_newest :
    (cs : List Call) (t : JobEventThrottle) (o : Option WorkerEvent)
    → waiting_or (run cs t).pending_progress (last_sent o (sends cs t))
      ≡ newest_emitted (waiting_or t.pending_progress o) cs
unfolding sends run
sends_newest [] t o = refl
sends_newest (c ∷ cs) t o =
    ap (waiting_or (run cs (step c t).0).pending_progress)
      (last_sent-append o (sends_of c t) (sends cs (step c t).0))
    ∙ sends_newest cs (step c t).0 (last_sent o (sends_of c t))
    ∙ ap (λ p. newest_emitted p cs) (step_newest c t o)
    ∙ sym (newest_emitted-step c cs (waiting_or t.pending_progress o))

flushed :
    (p o : Option WorkerEvent) (now : ℕ)
    → last_sent o (stamp now (pending_events p)) ≡ waiting_or p o
flushed none o now = refl
flushed (some ev) o now = refl

-- After any calls and `dispose`, the last progress event forwarded, leaving out the throttle's own notice that
-- the logs are truncated, is the newest one that a caller emitted, truncated; there is none if none was emitted.
pub newest_delivered :
    (forward_stdio : Bool) (cs : List Call) (now : ℕ)
    → last_sent none
        (sends cs (new forward_stdio) ++ stamp now (dispose (run cs (new forward_stdio))).1)
      ≡ newest_emitted none cs
unfolding new dispose
newest_delivered forward_stdio cs now =
    last_sent-append none (sends cs (new forward_stdio))
      (stamp now (pending_events (run cs (new forward_stdio)).pending_progress))
    ∙ flushed (run cs (new forward_stdio)).pending_progress
        (last_sent none (sends cs (new forward_stdio))) now
    ∙ sends_newest cs (new forward_stdio) none
