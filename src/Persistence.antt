-- ===== src/Persistence.antt =====
-- src/xenopus/persistence
pub mod Tasks
pub mod Approvals
pub mod Sessions
