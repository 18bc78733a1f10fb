-- ===== src/Retry.antt =====
-- internal/retry: whether, and when, a delivery operation is tried again.
pub mod Policy
pub mod State
pub mod Limit
pub mod Backoff
pub mod Schedule
pub mod Coordinator
pub mod Faults
mod Tests
