-- ===== src/Core/Cancellation/Examples.antt =====
-- Two jobs under src/core/cancellation.ts.
use roboppi.Base.{◌≡◌, refl, true, false, ◌||◌, ◌&&◌, Option, none, some, List, [], ◌∷◌}
use roboppi.Base.Dict
use roboppi.Core.Cancellation.{
  CancellationManager, new, create_controller, cancel, cancel_by_job_id, cancel_mapped, is_aborted,
  on_abort,
}
use roboppi.Core.Cancellation.Jobs.{belongs, is_aborted-cancel_by_job_id}

abbrev two_jobs : CancellationManager
two_jobs =
    (on_abort "p" 7 (create_controller "q" (some "k") (create_controller "p" (some "j") new))).1

all_open : Unit {0}
unfolding roboppi.Core.Cancellation.new roboppi.Core.Cancellation.create_controller
    roboppi.Core.Cancellation.cancel roboppi.Core.Cancellation.cancel_mapped
    roboppi.Core.Cancellation.cancel_by_job_id roboppi.Core.Cancellation.is_aborted
    roboppi.Core.Cancellation.on_abort roboppi.Base.Dict.get roboppi.Base.Dict.set
all_open = tt

runs_listener :
    ((cancel_by_job_id "j" none two_jobs).0 ≡ 7 ∷ [])
    × (is_aborted "p" (cancel_by_job_id "j" none two_jobs).1 ≡ true)
    × (is_aborted "q" (cancel_by_job_id "j" none two_jobs).1 ≡ false)
unfolding all_open
runs_listener = (refl, refl, refl)

is_aborted-cancel_by_job_id_example : is_aborted "p" (cancel_by_job_id "j" none two_jobs).1 ≡ (
    is_aborted "p" two_jobs
    || (belongs "p" "j" two_jobs.permit_to_job && Dict.has "p" two_jobs.controllers))
unfolding all_open
is_aborted-cancel_by_job_id_example =
    is_aborted-cancel_by_job_id two_jobs "p" "j" none (refl, (refl, tt))
