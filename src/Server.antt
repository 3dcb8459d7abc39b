-- ===== src/Server.antt =====
-- Package `server` (internal/server): the middleware around the router, and the probes.
pub mod Wiring
pub mod Middleware
pub mod Health
pub mod Application
pub mod Lifecycle
