-- ===== src/Paper.antt =====
-- brokers/paper: the simulated broker.
pub mod Domain
pub mod Orders
mod Tests
