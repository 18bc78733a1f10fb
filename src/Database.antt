-- ===== src/Database.antt =====
-- internal/database: the transactions that make the outcome of a delivery durable.
pub mod Outcomes
pub mod Store
pub mod Suppressed
mod Tests
