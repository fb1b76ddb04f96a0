-- ===== src/Chunker.antt =====
-- The division of a sound track into chunks that overlap, src/dubbing_pipeline/streaming/chunker.py.
pub mod Split
pub mod Cover
pub mod Examples
