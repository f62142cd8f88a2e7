-- ===== src/Types.antt =====
-- src/types/common.ts, job.ts and permit.ts. A UUID is a text, a timestamp a number of ms. Costs and
-- priorities are natural numbers. The trace context is not read by any code modelled here.
use roboppi.Base.{ℕ, Option, String}
use roboppi.Base.Json.{Json}

pub data ErrorClass : Type 0 where
  retryable_transient retryable_rate_limit retryable_network retryable_service : ErrorClass
  non_retryable non_retryable_lint non_retryable_test fatal : ErrorClass

pub record BudgetLimits : Type 0 where
  pub timeout_ms : ℕ
  pub max_attempts : ℕ
  pub cost_hint : Option ℕ
  pub retry_budget_ms : Option ℕ

pub data JobType : Type 0 where
  llm tool worker_task plugin_event maintenance : JobType

pub data PriorityClass : Type 0 where
  interactive batch : PriorityClass

pub record Priority : Type 0 where
  pub value : ℕ
  pub class : PriorityClass

pub record Job : Type 0 where
  pub job_id : String
  pub type : JobType
  pub priority : Priority
  pub key : Option String
  pub payload : Option Json
  pub limits : BudgetLimits

pub record PermitTokens : Type 0 where
  pub concurrency : ℕ
  pub rps : ℕ
  pub cost_budget : Option ℕ

pub data PermitRejectionReason : Type 0 where
  queue_stall circuit_open rate_limit global_shed fatal_mode : PermitRejectionReason
  budget_exhausted concurrency_limit duplicate_permit deferred : PermitRejectionReason
