-- ===== src/Quota.antt =====
-- brokers/common/quota_scheduler.py: the global coordination of the API quotas.
pub mod Reserve
pub mod Scheduler
pub mod Metrics
mod Tests
mod MetricsTests
