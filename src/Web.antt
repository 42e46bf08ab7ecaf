-- ===== src/Web.antt =====
-- src/xenopus/web
pub mod Webhooks
