-- ===== src/Core/JobEventThrottle/Examples.antt =====
-- A job of src/core/job-event-throttle.ts with progress every 40 ms, a patch and output.
use roboppi.Base.{
  ℕ, ◌+◌, ◌≤◌, ◌≡◌, refl, Bool, true, false, Option, none, some, List, [], ◌∷◌, ◌++◌,
}
use roboppi.Core.JobEventThrottle.{
  WorkerEvent, stdout, progress, patch, JobEventThrottle, new, throttle_ms, fire, dispose, Call,
  emitted, fired, run,
}
use roboppi.Core.JobEventThrottle.Sends.{sends, stamp}
use roboppi.Core.JobEventThrottle.Spacing.{Spaced, sends-new-Spaced}
use roboppi.Core.JobEventThrottle.Latest.{last_sent, newest_emitted, newest_delivered}
use roboppi.Core.JobEventThrottle.Limits.{others, accepted, cut, first_500_forwarded}

abbrev at_step : ℕ → WorkerEvent
at_step n = progress (n ∷ []) none

abbrev calls : List Call
calls =
    emitted 1000 (at_step 49)
    ∷ emitted 1040 (at_step 50)
    ∷ emitted 1050 (stdout (97 ∷ []))
    ∷ emitted 1060 (patch (98 ∷ []) (99 ∷ []))
    ∷ emitted 1080 (at_step 51)
    ∷ fired 1101
    ∷ emitted 1120 (at_step 52)
    ∷ []

all_open : Unit {0}
unfolding roboppi.Core.JobEventThrottle.new roboppi.Core.JobEventThrottle.emit
    roboppi.Core.JobEventThrottle.handle_progress roboppi.Core.JobEventThrottle.forward_with_limit
    roboppi.Core.JobEventThrottle.schedule roboppi.Core.JobEventThrottle.fire
    roboppi.Core.JobEventThrottle.flush_at roboppi.Core.JobEventThrottle.truncate_event
    roboppi.Core.EventText.truncate_string roboppi.Core.EventText.byte_length
    roboppi.Core.EventText.point_bytes roboppi.Core.JobEventThrottle.step
    roboppi.Core.JobEventThrottle.run roboppi.Core.JobEventThrottle.Sends.sends
    roboppi.Core.JobEventThrottle.Sends.sends_of roboppi.Core.JobEventThrottle.Limits.others
    roboppi.Core.JobEventThrottle.Limits.accepted
all_open = tt

sends_run : sends calls (new false) ≡ (1000, at_step 49) ∷ (1101, at_step 51) ∷ []
unfolding all_open
sends_run = refl

waits_run : (run calls (new false)).pending_progress ≡ some (at_step 52)
unfolding all_open
waits_run = refl

last_run : (run calls (new false)).last_progress_forwarded_at + throttle_ms ≤ 1201
unfolding all_open
last_run = omega roboppi.Base.arith

others_run : others calls (new false) ≡ patch (98 ∷ []) (99 ∷ []) ∷ []
unfolding all_open
others_run = refl

sends-new-Spaced_example : Spaced 0 (sends calls (new false))
sends-new-Spaced_example =
    sends-new-Spaced false calls
      (unfold all_open in (tt, (tt, (tt, (tt, (tt, (omega roboppi.Base.arith, (tt, tt))))))))

newest_delivered_example :
    last_sent none (sends calls (new false) ++ stamp 1130 (dispose (run calls (new false))).1)
    ≡ newest_emitted none calls
newest_delivered_example = newest_delivered false calls 1130

first_500_forwarded_example : others calls (new false) ≡ cut 500 false (accepted false calls)
first_500_forwarded_example = first_500_forwarded false calls
