-- ===== src/Core/Escalation.antt =====
-- src/types/escalation.ts. The text of a reason is its parts.
use roboppi.Base.{ℕ, String, List}

pub data EscalationScope : Type 0 where
  worker_kind workspace global : EscalationScope

pub data EscalationAction : Type 0 where
  isolate stop notify : EscalationAction

pub data Severity : Type 0 where
  warning error fatal : Severity

pub data Reason : Type 0 where
  crashed : (worker_kind : String) (times threshold : ℕ) → Reason
  ghost_process : (worker_kind : String) (timeouts : ℕ) → Reason
  not_converging : (workspace_ref : String) (times threshold : ℕ) → Reason
  multiple_kinds : List String → Reason

pub record EscalationEvent : Type 0 where
  pub scope : EscalationScope
  pub action : EscalationAction
  pub target : String
  pub reason : Reason
  pub timestamp : ℕ
  pub severity : Severity
