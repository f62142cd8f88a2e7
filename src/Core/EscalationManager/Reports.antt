-- ===== src/Core/EscalationManager/Reports.antt =====
-- Which cancellations that timed out an evaluation of src/core/escalation-manager.ts reports.
use roboppi.Base.{
  ℕ, ◌+◌, ◌≡◌, refl, sym, ap, ◌∙◌, String, str_eq, eq_iff, eq_refl, Bool, true, false, ◌&&◌, none,
  List, [], ◌∷◌, ◌++◌, or_default, ltb, arith, Bool-cases, inl, inr, if◌then◌else◌,
}
use roboppi.Base.Dict
use roboppi.Base.Dict.{Dict, Unique, get-set}
use roboppi.Base.Dict.Sums.{delete_absent}
use roboppi.Core.Escalation.{
  EscalationEvent, Severity, worker_kind, isolate, ghost_process, warning,
}
use roboppi.Core.EscalationManager.{
  EscalationManagerConfig, EscalationManager, Call, crashes, times_out, replaces, listens,
  evaluates, resets, new, step, run, crash_events, timeout_events, latest_wins_events,
  global_events, take_away, remove_processed, record_worker_crash, record_cancel_timeout,
  record_latest_wins, on_escalation, reset, evaluate,
}
use roboppi.Core.EscalationManager.Picked.{pick, pick-append}
use roboppi.Core.EscalationManager.Keyed.{IsKeyed, step-IsKeyed, new-IsKeyed, run-IsKeyed}

-- The cancellations of a kind that timed out since the last evaluation or reset.
pub timeouts_since : String → List Call → ℕ → ℕ
timeouts_since kind [] n = n
timeouts_since kind (times_out k ∷ calls) n =
    timeouts_since kind calls (if str_eq k kind then n + 1 else n)
timeouts_since kind (evaluates _ ∷ calls) n = timeouts_since kind calls 0
timeouts_since kind (resets ∷ calls) n = timeouts_since kind calls 0
timeouts_since kind (crashes _ _ ∷ calls) n = timeouts_since kind calls n
timeouts_since kind (replaces _ ∷ calls) n = timeouts_since kind calls n
timeouts_since kind (listens _ ∷ calls) n = timeouts_since kind calls n

is_warning : Severity → Bool
is_warning warning = true
is_warning _ = false

-- The warnings of a kind of worker among events.
pub warnings : String → List EscalationEvent → List EscalationEvent
unfolding is_warning
warnings kind = pick (λ e. is_warning e.severity && str_eq e.target kind)

warnings-append :
    (k : String) (xs ys : List EscalationEvent)
    → warnings k (xs ++ ys) ≡ warnings k xs ++ warnings k ys
unfolding warnings
warnings-append k xs ys = pick-append _ xs ys

warnings-crash_events :
    (k : String) (threshold now : ℕ) (m : Dict (List ℕ))
    → warnings k (crash_events threshold now m) ≡ []
unfolding warnings pick is_warning crash_events
warnings-crash_events k threshold now [] = refl
warnings-crash_events k threshold now ((j, cs) ∷ m) =
    ground (arith, warnings-crash_events k threshold now m)

warnings-latest_wins_events :
    (k : String) (threshold now : ℕ) (m : Dict ℕ)
    → warnings k (latest_wins_events threshold now m) ≡ []
unfolding warnings pick is_warning latest_wins_events
warnings-latest_wins_events k threshold now [] = refl
warnings-latest_wins_events k threshold now ((j, n) ∷ m) =
    ground (arith, warnings-latest_wins_events k threshold now m)

warnings-global_events :
    (k : String) (now : ℕ) (kinds : List String) → warnings k (global_events now kinds) ≡ []
unfolding warnings pick is_warning global_events
warnings-global_events k now kinds = ground arith

-- The one warning of a number of timeouts, if there are any.
abbrev pub one_warning : ℕ → String → ℕ → List EscalationEvent
one_warning now kind count =
    if ltb 0 count
    then record {
      scope = worker_kind;
      action = isolate;
      target = kind;
      reason = ghost_process kind count;
      timestamp = now;
      severity = warning;
    }
      ∷ []
    else []

warnings_absent :
    (k : String) (now : ℕ) (m : Dict ℕ)
    → Dict.get k m ≡ none
    → warnings k (timeout_events now m) ≡ []
unfolding warnings pick is_warning timeout_events Dict.get
warnings_absent k now [] h = refl
warnings_absent k now ((j, n) ∷ m) h = ground (arith, warnings_absent k now m)

warnings-timeout_events :
    (k : String) (now : ℕ) (m : Dict ℕ)
    → Unique m
    → warnings k (timeout_events now m) ≡ one_warning now k (or_default (Dict.get k m) 0)
unfolding warnings pick is_warning timeout_events Dict.get
warnings-timeout_events k now [] u = refl
warnings-timeout_events k now ((j, n) ∷ m) (fresh, u) = elim (Bool-cases (str_eq j k)) [
  | inl hit ↦
      let same : j ≡ k = (eq_iff j k).0 hit in
      let gone = warnings_absent k now m (ap (λ x. Dict.get x m) (sym same) ∙ fresh) in
      ground (arith, gone, same)
  | inr miss ↦ ground (arith, warnings-timeout_events k now m u)
]

append_nil : (xs : List EscalationEvent) → [] ++ xs ++ [] ++ [] ≡ xs
append_nil [] = refl
append_nil (x ∷ xs) = ap (λ t. x ∷ t) (append_nil xs)

warnings-evaluate :
    (k : String) (now : ℕ) (m : EscalationManager)
    → Unique m.cancel_timeouts
    → warnings k (evaluate now m).events
      ≡ one_warning now k (or_default (Dict.get k m.cancel_timeouts) 0)
unfolding evaluate
warnings-evaluate k now m u =
    simp
      (
        warnings-append,
        warnings-crash_events,
        warnings-latest_wins_events,
        warnings-global_events,
        warnings-timeout_events k now m.cancel_timeouts u,
      )
      (append_nil _)

take_away_all :
    (k : String) (n : ℕ) (m : Dict ℕ)
    → Dict.get k m ≡ none
    → take_away k n (Dict.get k ((k, n) ∷ m)) ((k, n) ∷ m) ≡ m
unfolding Dict.get Dict.delete
take_away_all k n m fresh = ground (arith, eq_refl k, delete_absent k m fresh)

-- A snapshot takes all its counts away.
remove_processed_all : (m : Dict ℕ) → Unique m → remove_processed m m ≡ []
unfolding remove_processed
remove_processed_all [] u = refl
remove_processed_all ((k, n) ∷ m) (fresh, u) =
    ap (remove_processed m) (take_away_all k n m fresh) ∙ remove_processed_all m u

timeouts_of : String → EscalationManager → ℕ
timeouts_of kind m = or_default (Dict.get kind m.cancel_timeouts) 0

timeouts_of-record_cancel_timeout :
    (kind k : String) (m : EscalationManager)
    → timeouts_of kind (record_cancel_timeout k m)
      ≡ (if str_eq k kind then timeouts_of kind m + 1 else timeouts_of kind m)
unfolding timeouts_of record_cancel_timeout
timeouts_of-record_cancel_timeout kind k m =
    rw (get-set k kind (or_default (Dict.get k m.cancel_timeouts) 0 + 1) m.cancel_timeouts)
      (elim (Bool-cases (str_eq k kind)) [
        | inl hit ↦
            rw hit
              (ap (λ j. or_default (Dict.get j m.cancel_timeouts) 0 + 1) ((eq_iff k kind).0 hit))
        | inr miss ↦ rw miss refl
      ])

timeouts_of-evaluate :
    (kind : String) (now : ℕ) (m : EscalationManager)
    → Unique m.cancel_timeouts
    → timeouts_of kind (evaluate now m).manager ≡ 0
unfolding timeouts_of evaluate Dict.get
timeouts_of-evaluate kind now m u =
    ap (λ d. or_default (Dict.get kind d) 0) (remove_processed_all m.cancel_timeouts u)

timeouts_of-run :
    (calls : List Call) (kind : String) (m : EscalationManager)
    → IsKeyed m
    → timeouts_of kind (run calls m) ≡ timeouts_since kind calls (timeouts_of kind m)
unfolding run step timeouts_since record_worker_crash record_latest_wins on_escalation reset
    timeouts_of Dict.get
timeouts_of-run [] kind m u = refl
timeouts_of-run (times_out k ∷ calls) kind m u =
    timeouts_of-run calls kind (record_cancel_timeout k m) (step-IsKeyed (times_out k) m u)
    ∙ ap (timeouts_since kind calls) (timeouts_of-record_cancel_timeout kind k m)
timeouts_of-run (evaluates now ∷ calls) kind m u =
    timeouts_of-run calls kind (evaluate now m).manager (step-IsKeyed (evaluates now) m u)
    ∙ ap (timeouts_since kind calls) (timeouts_of-evaluate kind now m u.of_timeouts)
timeouts_of-run (resets ∷ calls) kind m u =
    timeouts_of-run calls kind (reset m) (step-IsKeyed resets m u)
timeouts_of-run (crashes k t ∷ calls) kind m u =
    timeouts_of-run calls kind (record_worker_crash k t m) (step-IsKeyed (crashes k t) m u)
timeouts_of-run (replaces r ∷ calls) kind m u =
    timeouts_of-run calls kind (record_latest_wins r m) (step-IsKeyed (replaces r) m u)
timeouts_of-run (listens c ∷ calls) kind m u =
    timeouts_of-run calls kind (on_escalation c m) (step-IsKeyed (listens c) m u)

-- An evaluation warns of a kind of worker once if cancellations of that kind have timed out since the last
-- evaluation or reset, with their number, and else not: each timeout is counted in one warning.
pub warns_once :
    (config : EscalationManagerConfig) (calls : List Call) (now : ℕ) (kind : String)
    → warnings kind (evaluate now (run calls (new config))).events
      ≡ one_warning now kind (timeouts_since kind calls 0)
unfolding timeouts_of Dict.get new
warns_once config calls now kind =
    warnings-evaluate kind now (run calls (new config))
      (run-IsKeyed calls (new config) (new-IsKeyed config)).of_timeouts
    ∙ ap (one_warning now kind) (timeouts_of-run calls kind (new config) (new-IsKeyed config))
