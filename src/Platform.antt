-- ===== src/Platform.antt =====
-- The packages of backend/internal/platform around the use cases.
pub mod Failures
