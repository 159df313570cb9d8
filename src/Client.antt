-- ===== src/Client.antt =====
-- client/src: the services of a key, its registration with them, and the queries for its indices.
pub mod Config
pub mod Commands
pub mod Query
pub mod Register
