-- ===== src/Transport.antt =====
-- internal/transport: the pool of connections to the metadata server.
pub mod Pool
pub mod Health
pub mod Listener
