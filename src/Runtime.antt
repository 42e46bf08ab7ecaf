-- ===== src/Runtime.antt =====
-- src/xenopus/runtime
pub mod Context
pub mod Fsm
pub mod Permission
pub mod Risk
pub mod Approval
pub mod Scheduler
pub mod AgentPool
pub mod Goals
pub mod Aggregator
pub mod Verifier
pub mod Synthesizer
pub mod Notifications
pub mod Budgets
pub mod Executor
pub mod Plan
pub mod Killswitch
pub mod Orchestrator
