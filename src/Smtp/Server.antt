-- ===== src/Smtp/Server.antt =====
-- internal/smtp: the server.
pub mod Reader
pub mod Command
pub mod Reply
pub mod Config
pub mod Auth
pub mod Transaction
pub mod Serve
