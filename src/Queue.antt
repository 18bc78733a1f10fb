-- ===== src/Queue.antt =====
-- internal/queue: the work-scheduling boundary between acceptance and delivery.
pub mod Job
pub mod Memory
mod Tests
