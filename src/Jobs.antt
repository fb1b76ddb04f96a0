-- ===== src/Jobs.antt =====
-- The job model, its store, limits and policy (src/dubbing_pipeline/jobs).
pub mod Models
pub mod Store
pub mod Limits
pub mod Policy
