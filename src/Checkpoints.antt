-- ===== src/Checkpoints.antt =====
-- Checkpoints of the stages of a job, src/dubbing_pipeline/jobs/checkpoint.py: what stages are done, so that
-- a job that starts again skips them.
pub mod Stages
pub mod History
pub mod Done
pub mod Examples
