-- ===== src/Fs.antt =====
-- The file system (src/fs.rs): its state and the callbacks that the kernel calls.
pub mod State
pub mod Attributes
pub mod Files
pub mod Entries
pub mod Handles
pub mod Invariant
pub mod Session
pub mod Client
pub mod ReadOnly
pub mod Failure
pub mod Stranded
pub mod Latency
