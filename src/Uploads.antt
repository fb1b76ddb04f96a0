-- ===== src/Uploads.antt =====
-- Resumable uploads, src/dubbing_pipeline/web/routes/uploads.py: a session is planned in chunks, which
-- are written into a part file under a lock in any order, and completed at the end. SHA-256 is a
-- parameter, and so are the answers of the quota service and of ffprobe. `Crypto` is the container
-- in which a completed upload may be kept.
pub mod Plan
pub mod Part
pub mod Session
pub mod Receive
pub mod Complete
pub mod Finish
pub mod Success
pub mod History
pub mod Retry
mod Examples
