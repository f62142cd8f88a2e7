-- ===== src/Core/EscalationManager/Examples.antt =====
-- Two kinds of worker that fail under src/core/escalation-manager.ts.
use roboppi.Base.{◌≡◌, refl, List, [], ◌∷◌, arith}
use roboppi.Core.EscalationManager.{
  EscalationManagerConfig, Call, crashes, times_out, evaluates, new, run, evaluate,
}
use roboppi.Core.EscalationManager.Window.{
  in_last_minute, crash_reports, one_report, crashes_counted,
}
use roboppi.Core.EscalationManager.Stored.{crash_times}
use roboppi.Core.EscalationManager.Reports.{warnings, one_warning, timeouts_since, warns_once}

abbrev twice : EscalationManagerConfig
twice = record { crash_threshold = 2; cancel_timeout_ms = 30000; latest_wins_threshold = 3 }

abbrev calls : List Call
calls =
    crashes "a" 1000 ∷ evaluates 2000 ∷ times_out "b" ∷ crashes "a" 70000 ∷ crashes "a" 70001 ∷ []

crashes_counted_example :
    crash_reports "a" (evaluate 70002 (run calls (new twice))).events
    ≡ one_report 2 70002 "a" (in_last_minute 70002 (crash_times "a" calls []))
crashes_counted_example = crashes_counted twice calls 70002 "a" (omega arith) (omega arith)

two_crashes : in_last_minute 70002 (crash_times "a" calls []) ≡ 2
unfolding roboppi.Core.EscalationManager.Stored.crash_times
two_crashes = refl

warns_once_example :
    warnings "b" (evaluate 70002 (run calls (new twice))).events
    ≡ one_warning 70002 "b" (timeouts_since "b" calls 0)
warns_once_example = warns_once twice calls 70002 "b"
