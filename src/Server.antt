-- ===== src/Server.antt =====
-- internal/server: host names (Hosts), request paths (Paths) and the handlers.
pub mod Paths
pub mod Hosts
pub mod Handlers
pub mod Serving
pub mod Internal
pub mod Gate
pub mod Verified
pub mod Steps
pub mod Composed
pub mod Available
