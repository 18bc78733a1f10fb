-- ===== src/Smtp.antt =====
-- internal/smtp: the outbound client, and the server of one connection.
pub mod Validation
pub mod Session
pub mod Data
pub mod Server
pub mod Replies
pub mod Payload
pub mod Channel
pub mod StartTls
pub mod Upgrade
mod Tests
mod ServerTests
