-- ===== src/Stream.antt =====
-- The stream orchestrator, brokers/common/stream_orchestrator.py.
pub mod Models
pub mod Sessions
pub mod Subscribe
pub mod Reconnect
pub mod Normalise
pub mod Frames
pub mod Wired
pub mod Runs
pub mod Reuse
pub mod Serves
pub mod Merges
pub mod Candidates
pub mod Failover
mod Tests
