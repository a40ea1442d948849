-- ===== src/Historical.antt =====
-- The historical data coordinator, brokers/common/historical_coordinator.py.
pub mod Models
pub mod Plan
pub mod Once
pub mod Merge
pub mod Merged
pub mod Sources
pub mod Fetch
pub mod Numbered
pub mod Answers
pub mod Noted
pub mod Fetched
mod Tests
