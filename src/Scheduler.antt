-- ===== src/Scheduler.antt =====
-- src/dubbing_pipeline/runtime/scheduler.py, one module for each group of methods, and below them
-- the modules of their properties.
pub mod Modes
pub mod Heap
pub mod State
pub mod Submit
pub mod Ops
pub mod Dispatch
pub mod Phases
pub mod Order
pub mod Invariant
pub mod Preserve
pub mod World
pub mod Progress
pub mod Takes
pub mod Books
pub mod Histories
pub mod Running
pub mod Reprioritized
pub mod Queue
pub mod Handover
mod Examples
