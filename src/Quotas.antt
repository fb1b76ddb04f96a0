-- ===== src/Quotas.antt =====
-- Quotas of users, src/dubbing_pipeline/security/quotas.py, where no Redis is there: reservations of jobs
-- for a day and of bytes of storage, kept in the process, and the check of a submission.
pub mod Local
pub mod Day
pub mod Submission
pub mod Kept
pub mod Examples
