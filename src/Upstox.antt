-- ===== src/Upstox.antt =====
-- brokers/upstox: the Upstox broker.
pub mod Subscriptions
pub mod Slices
mod Tests
mod SliceTests
mod TextTests
