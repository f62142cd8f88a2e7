-- ===== src/Ipc/Messages.antt =====
-- src/types/ipc-messages.ts, with src/types/worker-result.ts as far as it is read. A message that the source
-- sends with the id of a request carries it here; a text of an error is its parts.
use roboppi.Base.{ℕ, String, Option}
use roboppi.Types.{Job, ErrorClass}
use roboppi.Core.PermitGate.{Permit, PermitRejection}
use roboppi.Core.Escalation.{EscalationEvent}
use roboppi.Core.JobEventThrottle.{WorkerEvent}

pub data WorkerStatus : Type 0 where
  succeeded failed cancelled : WorkerStatus

pub record WorkerResult : Type 0 where
  pub status : WorkerStatus
  pub error_class : Option ErrorClass

-- To the core.
pub data InboundMessage : Type 0 where
  submit_job : (request_id : String) (job : Job) → InboundMessage
  cancel_job : (request_id job_id reason : String) → InboundMessage
  request_permit : (request_id : String) (job : Job) (attempt_index : ℕ) → InboundMessage
  report_queue_metrics :
      (request_id : String) (queue_depth oldest_job_age_ms backlog_count : ℕ) → InboundMessage
  heartbeat : (timestamp : ℕ) → InboundMessage

-- To the scheduler. The outcome of a job has the names of a status.
pub data OutboundMessage : Type 0 where
  ack : (request_id job_id : String) → OutboundMessage
  permit_granted : (request_id : String) (permit : Permit) → OutboundMessage
  permit_rejected : (request_id : String) (rejection : PermitRejection) → OutboundMessage
  job_completed :
      (job_id : String) (outcome : WorkerStatus) (result : Option WorkerResult)
      (error_class : Option ErrorClass)
      → OutboundMessage
  job_cancelled : (job_id reason : String) (request_id : Option String) → OutboundMessage
  job_event : (job_id : String) (ts seq : ℕ) (event : WorkerEvent) → OutboundMessage
  escalation : EscalationEvent → OutboundMessage
  heartbeat_ack : (timestamp : ℕ) → OutboundMessage
  error : (code job_id : String) (request_id : Option String) → OutboundMessage
