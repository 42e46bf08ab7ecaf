-- ===== src/Skills.antt =====
-- src/xenopus/skills
pub mod Gate
pub mod Registry
