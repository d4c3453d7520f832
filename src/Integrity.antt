-- ===== src/Integrity.antt =====
-- The checks of backend/src/integrity.
pub mod Settlement
pub mod Completion
pub mod Validator
pub mod Audit
