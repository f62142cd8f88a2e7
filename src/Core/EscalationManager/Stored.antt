-- ===== src/Core/EscalationManager/Stored.antt =====
-- Which crashes src/core/escalation-manager.ts has stored.
use roboppi.Base.{
  ℕ, ◌≤◌, ◌≡◌, refl, sym, ap, ◌∙◌, String, str_eq, eq_iff, List, [], ◌∷◌, ◌++◌, or_default, arith,
  if◌then◌else◌, Bool-cases, inl, inr,
}
use roboppi.Base.Dict
use roboppi.Base.Dict.{Dict, Unique, get-set}
use roboppi.Core.EscalationManager.{
  EscalationManagerConfig, EscalationManager, Call, crashes, times_out, replaces, listens,
  evaluates, resets, new, step, run, recent, trim_crashes, record_worker_crash,
  record_cancel_timeout, record_latest_wins, on_escalation, reset, evaluate,
}

-- All the crashes of a kind since the last reset, behind those already known.
unfoldable pub crash_times : String → List Call → List ℕ → List ℕ
crash_times kind [] known = known
crash_times kind (crashes k now ∷ calls) known =
    crash_times kind calls (if str_eq k kind then known ++ now ∷ [] else known)
crash_times kind (resets ∷ calls) known = crash_times kind calls []
crash_times kind (times_out _ ∷ calls) known = crash_times kind calls known
crash_times kind (replaces _ ∷ calls) known = crash_times kind calls known
crash_times kind (listens _ ∷ calls) known = crash_times kind calls known
crash_times kind (evaluates _ ∷ calls) known = crash_times kind calls known

-- The clock does not fall from one call to the next, nor from the last to `now`.
abbrev pub IsTimely : ℕ → List Call → ℕ → Type 0
IsTimely last [] now = last ≤ now
IsTimely last (crashes _ time ∷ calls) now = (last ≤ time) × IsTimely time calls now
IsTimely last (evaluates time ∷ calls) now = (last ≤ time) × IsTimely time calls now
IsTimely last (times_out _ ∷ calls) now = IsTimely last calls now
IsTimely last (replaces _ ∷ calls) now = IsTimely last calls now
IsTimely last (listens _ ∷ calls) now = IsTimely last calls now
IsTimely last (resets ∷ calls) now = IsTimely last calls now

unfoldable pub crashes_of : String → EscalationManager → List ℕ
crashes_of kind m = or_default (Dict.get kind m.worker_crashes) []

recent-append : (now : ℕ) (xs ys : List ℕ) → recent now (xs ++ ys) ≡ recent now xs ++ recent now ys
unfolding recent
recent-append now [] ys = refl
recent-append now (x ∷ xs) ys = ground (arith, recent-append now xs ys)

-- What an earlier evaluation has dropped is old for a later one.
recent-recent :
    (now earlier : ℕ) (cs : List ℕ) → earlier ≤ now → recent now (recent earlier cs) ≡ recent now cs
unfolding recent
recent-recent now earlier [] h = refl
recent-recent now earlier (c ∷ cs) h = ground (arith, recent-recent now earlier cs h)

pub get-trim_crashes :
    (time : ℕ) (k : String) (m : Dict (List ℕ))
    → or_default (Dict.get k (trim_crashes time m)) [] ≡ recent time (or_default (Dict.get k m) [])
unfolding trim_crashes Dict.get recent
get-trim_crashes time k [] = refl
get-trim_crashes time k ((j, cs) ∷ m) = ground (arith, get-trim_crashes time k m)

-- The stored times and the known ones agree for every evaluation from a time on.
abbrev Agree : ℕ → List ℕ → List ℕ → Type 0
Agree last stored known = (now : ℕ) → last ≤ now → recent now stored ≡ recent now known

Agree-crash :
    (last time : ℕ) (kind k : String) (known : List ℕ) (m : EscalationManager)
    → last ≤ time
    → Agree last (crashes_of kind m) known
    → Agree time
        (crashes_of kind (record_worker_crash k time m))
        (if str_eq k kind then known ++ time ∷ [] else known)
unfolding crashes_of record_worker_crash
Agree-crash last time kind k known m h a now later =
    rw (get-set k kind (or_default (Dict.get k m.worker_crashes) [] ++ time ∷ []) m.worker_crashes)
      (elim (Bool-cases (str_eq k kind)) [
        | inl hit ↦ rw hit (
            ap (λ j. recent now (or_default (Dict.get j m.worker_crashes) [] ++ time ∷ []))
              ((eq_iff k kind).0 hit)
            ∙ recent-append now (crashes_of kind m) (time ∷ [])
            ∙ ap (λ l. l ++ recent now (time ∷ [])) (a now (omega arith))
            ∙ sym (recent-append now known (time ∷ [])))
        | inr miss ↦ rw miss (a now (omega arith))
      ])

Agree-evaluate :
    (last time : ℕ) (kind : String) (known : List ℕ) (m : EscalationManager)
    → last ≤ time
    → Agree last (crashes_of kind m) known
    → Agree time (crashes_of kind (evaluate time m).manager) known
unfolding crashes_of evaluate
Agree-evaluate last time kind known m h a now later =
    ap (recent now) (get-trim_crashes time kind m.worker_crashes)
    ∙ recent-recent now time (or_default (Dict.get kind m.worker_crashes) []) later
    ∙ a now (omega arith)

run-Agree :
    (calls : List Call) (last now : ℕ) (kind : String) (known : List ℕ) (m : EscalationManager)
    → IsTimely last calls now
    → Agree last (crashes_of kind m) known
    → recent now (crashes_of kind (run calls m)) ≡ recent now (crash_times kind calls known)
unfolding run step crash_times crashes_of record_cancel_timeout record_latest_wins on_escalation
    reset Dict.get
run-Agree [] last now kind known m h a = a now h
run-Agree (crashes k time ∷ calls) last now kind known m (h, t) a =
    run-Agree calls time now kind _ (record_worker_crash k time m) t
      (Agree-crash last time kind k known m h a)
run-Agree (evaluates time ∷ calls) last now kind known m (h, t) a =
    run-Agree calls time now kind known (evaluate time m).manager t
      (Agree-evaluate last time kind known m h a)
run-Agree (times_out k ∷ calls) last now kind known m t a =
    run-Agree calls last now kind known (record_cancel_timeout k m) t a
run-Agree (replaces ref ∷ calls) last now kind known m t a =
    run-Agree calls last now kind known (record_latest_wins ref m) t a
run-Agree (listens callback ∷ calls) last now kind known m t a =
    run-Agree calls last now kind known (on_escalation callback m) t a
run-Agree (resets ∷ calls) last now kind known m t a =
    run-Agree calls last now kind [] (reset m) t (λ _ _. refl)

-- The crashes of the last minute that a manager has stored are those that were recorded.
pub recent-run :
    (config : EscalationManagerConfig) (calls : List Call) (now : ℕ) (kind : String)
    → IsTimely 0 calls now
    → recent now (crashes_of kind (run calls (new config))) ≡ recent now (crash_times kind calls [])
unfolding new crashes_of Dict.get
recent-run config calls now kind h = run-Agree calls 0 now kind [] (new config) h (λ _ _. refl)
