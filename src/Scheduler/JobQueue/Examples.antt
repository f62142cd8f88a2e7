-- ===== src/Scheduler/JobQueue/Examples.antt =====
-- Jobs of both classes in the queue of src/scheduler/job-queue.ts.
use roboppi.Base.{ℕ, String, ◌≡◌, refl, none, some, List, [], ◌∷◌}
use roboppi.Types.{Job, PriorityClass, interactive, batch, maintenance}
use roboppi.Scheduler.JobQueue.{new}
use roboppi.Scheduler.JobQueue.Line.{Call, put, take, View, views, line_views}
use roboppi.Scheduler.JobQueue.Refines.{queue_refines}

abbrev job : String → PriorityClass → ℕ → Job
job id class value = record {
  job_id = id;
  type = maintenance;
  priority = record { value = value; class = class };
  key = none;
  payload = none;
  limits = record { timeout_ms = 1000; max_attempts = 3; cost_hint = none; retry_budget_ms = none };
}

abbrev calls : List Call
calls =
    put (job "nightly" batch 9)
    ∷ put (job "a" interactive 1)
    ∷ put (job "b" interactive 5)
    ∷ put (job "c" interactive 5)
    ∷ take
    ∷ take
    ∷ put (job "d" interactive 2)
    ∷ take
    ∷ take
    ∷ take
    ∷ take
    ∷ []

queue_refines_example : views new calls ≡ line_views [] calls
queue_refines_example = queue_refines calls

-- The sixth call takes the second of two jobs of one rank.
abbrev sixth : List View → List View
sixth (a ∷ b ∷ c ∷ d ∷ e ∷ f ∷ rest) = f ∷ []
sixth xs = []

takes_in_order :
    sixth (views new calls)
    ≡ record {
      answer = some (job "c" interactive 5);
      first = some (job "a" interactive 1);
      count = 2;
    }
      ∷ []
unfolding roboppi.Scheduler.JobQueue.Line.views roboppi.Scheduler.JobQueue.Line.call
    roboppi.Scheduler.JobQueue.Line.view_of roboppi.Scheduler.JobQueue.Line.take_from
    roboppi.Scheduler.JobQueue.enqueue roboppi.Scheduler.JobQueue.dequeue
    roboppi.Scheduler.JobQueue.peek roboppi.Scheduler.JobQueue.sift_up
    roboppi.Scheduler.JobQueue.sift_down roboppi.Scheduler.JobQueue.best_of
    roboppi.Scheduler.JobQueue.better roboppi.Scheduler.JobQueue.swap
    roboppi.Scheduler.JobQueue.higher_priority roboppi.Scheduler.JobQueue.remove_top
    roboppi.Scheduler.JobQueue.drop_last
takes_in_order = refl
