-- ===== src/Scheduler/DeadLetterQueue/Examples.antt =====
-- A queue of src/scheduler/dlq.ts for two entries, with a file.
use roboppi.Base.{String, ◌≡◌, ◌<◌, refl, true, none, some, List, [], ◌∷◌, ◌++◌, length, arith}
use roboppi.Types.{batch, maintenance}
use roboppi.Scheduler.DeadLetterQueue.{
  DlqEntry, DeadLetterQueue, Line, json, corrupted, whole, new, load_from_file, push, Call, pushes,
  pops, run,
}
use roboppi.Scheduler.DeadLetterQueue.Persistence.{
  Keeps, overflows, restart, run-new-Keeps, overflow_returns,
}

abbrev failed : String → DlqEntry
failed id = record {
  job = record {
    job_id = id;
    type = maintenance;
    priority = record { value = 1; class = batch };
    key = none;
    payload = none;
    limits = record {
      timeout_ms = 1000;
      max_attempts = 1;
      cost_hint = none;
      retry_budget_ms = none;
    };
  };
  reason = "failed";
  error_class = none;
  failed_at = 5;
  attempt_count = 1;
}

abbrev full : DeadLetterQueue
full = record {
  entries = failed "a" ∷ failed "b" ∷ [];
  max_size = 2;
  persists = true;
  file =
      some (record { lines = json (failed "a") ∷ corrupted ∷ json (failed "b") ∷ []; end = whole });
}

abbrev calls : List Call
calls = pushes (failed "a") ∷ pushes (failed "b") ∷ pushes (failed "c") ∷ pops ∷ []

run-new-Keeps_example : Keeps (run calls (new 2 true none)) (overflows calls (new 2 true none))
run-new-Keeps_example = run-new-Keeps 2 none calls tt

full_reloads : load_from_file full.file ≡ full.entries
unfolding roboppi.Scheduler.DeadLetterQueue.load_from_file
    roboppi.Scheduler.DeadLetterQueue.parse_lines
full_reloads = refl

overflow_returns_example :
    ((restart (push true (failed "c") full)).entries ≡ full.entries ++ failed "c" ∷ [])
    × ((restart (push true (failed "c") full)).max_size
        < length (restart (push true (failed "c") full)).entries)
overflow_returns_example = overflow_returns (failed "c") full refl refl full_reloads (omega arith)
