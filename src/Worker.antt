-- ===== src/Worker.antt =====
-- src/worker.
pub mod WorkspaceLock
pub mod TaskPayload
