-- ===== src/Core/EscalationManager/Window.antt =====
-- Which crashes an evaluation of src/core/escalation-manager.ts reports.
use roboppi.Base.{
  ℕ, ◌≤◌, ◌≡◌, refl, sym, subst, ap, ap₂, ◌∙◌, Bool, false, none, length, ltb, leb, ◌+◌, String,
  str_eq, eq_iff, List, [], ◌∷◌, ◌++◌, or_default, arith, if◌then◌else◌, Bool-cases, inl, inr,
}
use roboppi.Base.Dict
use roboppi.Base.Dict.{Dict, Unique, get-set}
use roboppi.Core.Escalation.{EscalationEvent, Reason, worker_kind, isolate, crashed, error}
use roboppi.Core.EscalationManager.{
  EscalationManagerConfig, EscalationManager, Call, crashes, times_out, replaces, listens,
  evaluates, resets, new, step, run, recent, trim_crashes, record_worker_crash,
  record_cancel_timeout, record_latest_wins, on_escalation, reset, evaluate, crash_events,
  timeout_events, latest_wins_events, global_events,
}
use roboppi.Core.EscalationManager.Picked.{pick, pick-append}
use roboppi.Core.EscalationManager.Keyed.{Unique-trim_crashes, run-IsKeyed, new-IsKeyed}
use roboppi.Core.EscalationManager.Stored.{
  crash_times, IsTimely, crashes_of, get-trim_crashes, recent-run,
}

-- How many times lie within the minute before a time, that time included.
abbrev pub in_last_minute : ℕ → List ℕ → ℕ
in_last_minute now [] = 0
in_last_minute now (time ∷ times) =
    (if ltb now (time + 60000) then 1 else 0) + in_last_minute now times

length-recent : (now : ℕ) (times : List ℕ) → length (recent now times) ≡ in_last_minute now times
unfolding recent
length-recent now [] = refl
length-recent now (time ∷ times) = ground (arith, length-recent now times)

is_crash_of : String → Reason → Bool
is_crash_of kind (crashed k times threshold) = str_eq k kind
is_crash_of kind _ = false

-- The reports of a kind of worker that crashed, among events.
pub crash_reports : String → List EscalationEvent → List EscalationEvent
unfolding is_crash_of
crash_reports kind = pick (λ e. is_crash_of kind e.reason)

-- The one report of a number of crashes, if they reach the threshold.
abbrev pub one_report : ℕ → ℕ → String → ℕ → List EscalationEvent
one_report threshold now kind times =
    if leb threshold times
    then record {
      scope = worker_kind;
      action = isolate;
      target = kind;
      reason = crashed kind times threshold;
      timestamp = now;
      severity = error;
    }
      ∷ []
    else []

crash_reports-append :
    (k : String) (xs ys : List EscalationEvent)
    → crash_reports k (xs ++ ys) ≡ crash_reports k xs ++ crash_reports k ys
unfolding crash_reports
crash_reports-append k xs ys = pick-append _ xs ys

crash_reports-timeout_events :
    (k : String) (now : ℕ) (m : Dict ℕ) → crash_reports k (timeout_events now m) ≡ []
unfolding crash_reports pick is_crash_of timeout_events
crash_reports-timeout_events k now [] = refl
crash_reports-timeout_events k now ((j, n) ∷ m) =
    ground (arith, crash_reports-timeout_events k now m)

crash_reports-latest_wins_events :
    (k : String) (threshold now : ℕ) (m : Dict ℕ)
    → crash_reports k (latest_wins_events threshold now m) ≡ []
unfolding crash_reports pick is_crash_of latest_wins_events
crash_reports-latest_wins_events k threshold now [] = refl
crash_reports-latest_wins_events k threshold now ((j, n) ∷ m) =
    ground (arith, crash_reports-latest_wins_events k threshold now m)

crash_reports-global_events :
    (k : String) (now : ℕ) (kinds : List String) → crash_reports k (global_events now kinds) ≡ []
unfolding crash_reports pick is_crash_of global_events
crash_reports-global_events k now kinds = ground arith

crash_reports_absent :
    (k : String) (threshold now : ℕ) (m : Dict (List ℕ))
    → Dict.get k m ≡ none
    → crash_reports k (crash_events threshold now m) ≡ []
unfolding crash_reports pick is_crash_of crash_events Dict.get
crash_reports_absent k threshold now [] h = refl
crash_reports_absent k threshold now ((j, cs) ∷ m) h =
    ground (arith, crash_reports_absent k threshold now m)

crash_reports-crash_events :
    (k : String) (threshold now : ℕ) (m : Dict (List ℕ))
    → 1 ≤ threshold
    → Unique m
    → crash_reports k (crash_events threshold now m)
      ≡ one_report threshold now k (length (or_default (Dict.get k m) []))
unfolding crash_reports pick is_crash_of crash_events Dict.get
crash_reports-crash_events k threshold now [] positive u = ground arith
crash_reports-crash_events k threshold now ((j, cs) ∷ m) positive (fresh, u) =
    elim (Bool-cases (str_eq j k)) [
      | inl hit ↦
          let same : j ≡ k = (eq_iff j k).0 hit in
          let gone =
            crash_reports_absent k threshold now m (ap (λ x. Dict.get x m) (sym same) ∙ fresh) in
          ground (arith, gone, same)
      | inr miss ↦ ground (arith, crash_reports-crash_events k threshold now m positive u)
    ]

append_nil : (xs : List EscalationEvent) → xs ++ [] ++ [] ++ [] ≡ xs
append_nil [] = refl
append_nil (x ∷ xs) = ap (λ t. x ∷ t) (append_nil xs)

crash_reports-evaluate :
    (k : String) (now : ℕ) (m : EscalationManager)
    → 1 ≤ m.config.crash_threshold
    → Unique m.worker_crashes
    → crash_reports k (evaluate now m).events
      ≡ one_report m.config.crash_threshold now k (length (recent now (crashes_of k m)))
unfolding evaluate crashes_of
crash_reports-evaluate k now m positive u =
    simp
      (
        crash_reports-append,
        crash_reports-timeout_events,
        crash_reports-latest_wins_events,
        crash_reports-global_events,
        crash_reports-crash_events k m.config.crash_threshold now
            (trim_crashes now m.worker_crashes) positive
            (Unique-trim_crashes now m.worker_crashes u),
      )
      (append_nil _)
    ∙ ap (λ cs. one_report m.config.crash_threshold now k (length cs))
        (get-trim_crashes now k m.worker_crashes)

config-run : (calls : List Call) (m : EscalationManager) → (run calls m).config ≡ m.config
unfolding run step record_worker_crash record_cancel_timeout record_latest_wins on_escalation
    evaluate reset
config-run [] m = refl
config-run (crashes k now ∷ calls) m = config-run calls (record_worker_crash k now m)
config-run (times_out k ∷ calls) m = config-run calls (record_cancel_timeout k m)
config-run (replaces r ∷ calls) m = config-run calls (record_latest_wins r m)
config-run (listens c ∷ calls) m = config-run calls (on_escalation c m)
config-run (evaluates now ∷ calls) m = config-run calls (evaluate now m).manager
config-run (resets ∷ calls) m = config-run calls (reset m)

-- If the clock does not fall and the threshold is at least 1, an evaluation reports a kind of worker as crashed
-- once if the crashes recorded since the last reset and less than 60 seconds ago reach the threshold, with
-- their number, and else not: what earlier evaluations have dropped is not missed.
pub crashes_counted :
    (config : EscalationManagerConfig) (calls : List Call) (now : ℕ) (kind : String)
    → 1 ≤ config.crash_threshold
    → IsTimely 0 calls now
    → crash_reports kind (evaluate now (run calls (new config))).events
      ≡ one_report config.crash_threshold now kind (in_last_minute now (crash_times kind calls []))
unfolding new
crashes_counted config calls now kind positive h =
    let m = run calls (new config) in
    let same : m.config.crash_threshold ≡ config.crash_threshold =
      ap (λ c. c.crash_threshold) (config-run calls (new config)) in
    crash_reports-evaluate kind now m (subst (λ n. 1 ≤ n) (sym same) positive)
      (run-IsKeyed calls (new config) (new-IsKeyed config)).of_crashes
    ∙ ap₂ (λ threshold times. one_report threshold now kind times) same
        (ap (λ cs. length cs) (recent-run config calls now kind h)
          ∙ length-recent now (crash_times kind calls []))
