-- ===== src/Provider.antt =====
-- src/xenopus/provider
pub mod Health
pub mod Registry
pub mod Router
