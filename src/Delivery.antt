-- ===== src/Delivery.antt =====
-- internal/delivery: one delivery operation to one recipient domain.
pub mod Policy
pub mod Request
pub mod Candidates
pub mod Result
pub mod Config
pub mod Engine
mod Tests
