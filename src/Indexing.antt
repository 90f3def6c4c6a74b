-- ===== src/Indexing.antt =====
-- Repository indexing: apps/worker/src/inngest and apps/worker/src/indexing.
pub mod ErrorCode
pub mod Store
pub mod Send
pub mod Jobs
pub mod Lock
pub mod Counts
pub mod Run
pub mod Failure
pub mod Sweep
pub mod Archive
