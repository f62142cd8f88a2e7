-- ===== src/Core.antt =====
-- src/core: what decides whether a job may run.
pub mod CircuitBreaker
pub mod BreakerRegistry
pub mod Backpressure
pub mod RpsRing
pub mod Budget
pub mod PermitGate
pub mod EventText
pub mod JobEventThrottle
pub mod Escalation
pub mod EscalationManager
pub mod Watchdog
pub mod Cancellation
pub mod AgentCore
