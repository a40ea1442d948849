-- ===== src/Idempotency.antt =====
-- brokers/common/idempotency: the caches that keep the answers of calls that must not happen twice.
pub mod MemoryCache
pub mod Service
mod Tests
