-- ===== src/Scheduler/InflightRegistry/Examples.antt =====
-- Two jobs for one key of src/scheduler/inflight-registry.ts.
use roboppi.Base.{String, str_eq, ◌≡◌, refl, Option, none, some, List, [], ◌∷◌, if◌then◌else◌}
use roboppi.Scheduler.InflightRegistry.{
  latest_wins, reject, proceeds, Registry, register, deregister, lookup,
}
use roboppi.Scheduler.InflightRegistry.Holders.{answer, holder_after, register_lem}

abbrev busy : Registry
busy = ("review", record { job_id = "a"; policy = latest_wins }) ∷ []

replaces : (register "review" "b" latest_wins busy).0 ≡ proceeds (some "a")
unfolding roboppi.Scheduler.InflightRegistry.register
    roboppi.Scheduler.InflightRegistry.register_over roboppi.Base.Dict.get
replaces = refl

register_lem_example :
    ((register "review" "b" latest_wins busy).0 ≡ answer latest_wins (lookup "review" busy))
    × (lookup "review" (register "review" "b" latest_wins busy).1 ≡ (
        if str_eq "review" "review"
        then some (holder_after "b" (register "review" "b" latest_wins busy).0)
        else lookup "review" busy))
register_lem_example = register_lem "review" "b" "review" latest_wins busy
