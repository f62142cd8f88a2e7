-- ===== src/Workflow.antt =====
-- src/workflow.
pub mod Types
pub mod CycleDetection
pub mod DagValidator
pub mod Duration
