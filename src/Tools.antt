-- ===== src/Tools.antt =====
-- src/xenopus/tools
pub mod Contracts
pub mod Registry
pub mod Gateway
