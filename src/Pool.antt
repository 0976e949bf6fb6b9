-- ===== src/Pool.antt =====
-- gokit/transport/pool: the connection pool of one server.
pub mod Options
pub mod Client
pub mod Recycle
pub mod Clients
pub mod Calls
mod Tests
