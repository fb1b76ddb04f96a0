-- ===== src/JobQueue.antt =====
-- The job queue of the process, src/dubbing_pipeline/jobs/queue_impl.py: calls that change the state of
-- a job, the recovery at the start, the rounds of the workers, and the beginning and the end of a run.
pub mod State
pub mod Workers
pub mod Calls
pub mod Canceled
pub mod Rounds
pub mod Stopped
pub mod Slots
pub mod Resumed
pub mod Recovery
pub mod Input
mod Examples
