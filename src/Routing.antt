-- ===== src/Routing.antt =====
-- The choice of a broker: brokers/common/models.py, policy.py, registry.py and router.py.
pub mod Models
pub mod Policy
pub mod Registry
pub mod Router
mod Tests
