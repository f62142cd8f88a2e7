-- ===== src/Core/EscalationManager/Keyed.antt =====
-- The maps of src/core/escalation-manager.ts hold a key once.
use roboppi.Base.{ℕ, ◌-◌, ◌≡◌, refl, String, Option, none, some, List, [], ◌∷◌, arith}
use roboppi.Base.Dict
use roboppi.Base.Dict.{Dict, Unique}
use roboppi.Base.Dict.Sums.{set-Unique, delete-Unique}
use roboppi.Core.EscalationManager.{
  EscalationManagerConfig, EscalationManager, Call, new, step, run, crashes, times_out, replaces,
  listens, evaluates, resets, record_worker_crash, record_cancel_timeout, record_latest_wins,
  on_escalation, reset, trim_crashes, remove_processed, evaluate, take_away,
}

get-trim_crashes_absent :
    (now : ℕ) (k : String) (m : Dict (List ℕ))
    → Dict.get k m ≡ none
    → Dict.get k (trim_crashes now m) ≡ none
unfolding trim_crashes Dict.get
get-trim_crashes_absent now k [] h = refl
get-trim_crashes_absent now k ((j, cs) ∷ m) h = ground (arith, get-trim_crashes_absent now k m)

pub Unique-trim_crashes : (now : ℕ) (m : Dict (List ℕ)) → Unique m → Unique (trim_crashes now m)
unfolding trim_crashes
Unique-trim_crashes now [] u = tt
Unique-trim_crashes now ((k, cs) ∷ m) (fresh, u) =
    (get-trim_crashes_absent now k m fresh, Unique-trim_crashes now m u)

-- The entries of the three maps have keys of their own.
pub record IsKeyed (m : EscalationManager) : Type 0 where
  pub of_crashes : Unique m.worker_crashes
  pub of_timeouts : Unique m.cancel_timeouts

take_away-Unique :
    (k : String) (n : ℕ) (o : Option ℕ) (m : Dict ℕ) → Unique m → Unique (take_away k n o m)
take_away-Unique k n none m u = u
take_away-Unique k n (some c) m u = ground (arith, delete-Unique k m u, set-Unique k (c - n) m u)

remove_processed-Unique : (snapshot m : Dict ℕ) → Unique m → Unique (remove_processed snapshot m)
unfolding remove_processed
remove_processed-Unique [] m u = u
remove_processed-Unique ((k, n) ∷ snapshot) m u =
    remove_processed-Unique snapshot _ (take_away-Unique k n (Dict.get k m) m u)

pub step-IsKeyed : (c : Call) (m : EscalationManager) → IsKeyed m → IsKeyed (step c m)
unfolding step record_worker_crash record_cancel_timeout record_latest_wins on_escalation reset
    evaluate
step-IsKeyed (crashes k now) m u = record {
  of_crashes = set-Unique k _ m.worker_crashes u.of_crashes;
  of_timeouts = u.of_timeouts;
}
step-IsKeyed (times_out k) m u = record {
  of_crashes = u.of_crashes;
  of_timeouts = set-Unique k _ m.cancel_timeouts u.of_timeouts;
}
step-IsKeyed (replaces ref) m u = record { of_crashes = u.of_crashes; of_timeouts = u.of_timeouts }
step-IsKeyed (listens callback) m u = record {
  of_crashes = u.of_crashes;
  of_timeouts = u.of_timeouts;
}
step-IsKeyed (evaluates now) m u = record {
  of_crashes = Unique-trim_crashes now m.worker_crashes u.of_crashes;
  of_timeouts = remove_processed-Unique m.cancel_timeouts m.cancel_timeouts u.of_timeouts;
}
step-IsKeyed resets m u = record { of_crashes = tt; of_timeouts = tt }

pub run-IsKeyed : (calls : List Call) (m : EscalationManager) → IsKeyed m → IsKeyed (run calls m)
unfolding run
run-IsKeyed [] m u = u
run-IsKeyed (c ∷ calls) m u = run-IsKeyed calls (step c m) (step-IsKeyed c m u)

pub new-IsKeyed : (config : EscalationManagerConfig) → IsKeyed (new config)
unfolding new
new-IsKeyed config = record { of_crashes = tt; of_timeouts = tt }
