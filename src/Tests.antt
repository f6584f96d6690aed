-- ===== src/Tests.antt =====
-- Runs of the definitions on concrete inputs, and the theorems at inputs that meet their hypotheses.
pub mod Queue
pub mod Concurrent
pub mod Late
pub mod Quiet
pub mod Format
pub mod Sink
pub mod Disk
pub mod Files
pub mod Logger
pub mod Live
pub mod Session
pub mod Versions
pub mod Tools
pub mod Contention
