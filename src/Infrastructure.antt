-- ===== src/Infrastructure.antt =====
-- The adapters of dispute/infrastructure.
pub mod MockCore
