-- ===== src/Memory.antt =====
-- src/xenopus/memory
pub mod Types
pub mod Store
