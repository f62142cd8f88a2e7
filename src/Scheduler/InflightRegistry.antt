-- ===== src/Scheduler/InflightRegistry.antt =====
-- src/scheduler/inflight-registry.ts: which job is in flight for a key.
pub mod Holders
mod Examples
use roboppi.Base.{String, Bool, Option, none, some}
use roboppi.Base.Dict.{Dict}
use roboppi.Base.Dict

pub data DeduplicationPolicy : Type 0 where
  coalesce latest_wins reject : DeduplicationPolicy

-- `proceed` with the job to cancel, if there is one.
pub data RegisterResult : Type 0 where
  proceeds : Option String → RegisterResult
  coalesces rejects : String → RegisterResult

pub record InFlightEntry : Type 0 where
  pub job_id : String
  pub policy : DeduplicationPolicy

abbrev pub Registry : Type 0
Registry = Dict InFlightEntry

-- A key that is in flight.
unfoldable pub register_over :
    InFlightEntry → String → String → DeduplicationPolicy → Registry → RegisterResult × Registry
register_over existing key job_id coalesce r = (coalesces existing.job_id, r)
register_over existing key job_id latest_wins r = (
  proceeds (some existing.job_id),
  Dict.set key (record { job_id = job_id; policy = latest_wins }) r,
)
register_over existing key job_id reject r = (rejects existing.job_id, r)

unfoldable pub register :
    String → String → DeduplicationPolicy → Registry → RegisterResult × Registry
register key job_id policy r = elim (Dict.get key r) [
  | none ↦ (proceeds none, Dict.set key (record { job_id = job_id; policy = policy }) r)
  | some existing ↦ register_over existing key job_id policy r
]

unfoldable pub deregister : String → Registry → Registry
deregister key r = Dict.delete key r

abbrev pub job_of : Option InFlightEntry → Option String
job_of none = none
job_of (some e) = some e.job_id

unfoldable pub lookup : String → Registry → Option String
lookup key r = job_of (Dict.get key r)

unfoldable pub is_in_flight : String → Registry → Bool
is_in_flight key r = Dict.has key r
