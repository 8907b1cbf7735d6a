-- ===== src/Process.antt =====
-- The process around the file system (src/main.rs): its start and end, and two of its threads.
pub mod Watchdog
pub mod Signals
pub mod Startup
pub mod Panic
