-- ===== src/Dns.antt =====
-- internal/dns: the SMTP hosts of a mail domain.
pub mod Mx
pub mod Resolver
mod Tests
