-- ===== src/Ipc.antt =====
-- src/ipc: what the scheduler and the core say to each other.
pub mod Messages
