-- ===== src/Routing.antt =====
-- internal/routing: the sending pool.
pub mod Select
