-- ===== src/Models.antt =====
-- The model registry and its qualification gate, runtime/src/human_cos/models.
pub mod Profile
pub mod Qualification
pub mod Fallback
