-- ===== src/Worker.antt =====
-- internal/worker: one claimed job, from the queue's claim to its `Ack` or its `Release`.
pub mod World
pub mod Hold
pub mod Suppress
pub mod Permit
pub mod Persist
pub mod Notify
pub mod Processor
mod Tests
