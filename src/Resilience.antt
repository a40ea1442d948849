-- ===== src/Resilience.antt =====
-- brokers/common/resilience: the circuit breaker, the token buckets, the backoff strategies, the retry
-- executor that joins them, and the health monitor.
pub mod Circuit
pub mod Bucket
pub mod Buckets
pub mod Backoff
pub mod Retry
pub mod Health
