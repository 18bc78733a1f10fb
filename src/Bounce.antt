-- ===== src/Bounce.antt =====
-- internal/bounce: from the final failure of a delivery to a delivery status notification.
pub mod Status
pub mod Classify
pub mod Dsn
mod Tests
