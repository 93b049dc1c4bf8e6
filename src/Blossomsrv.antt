-- ===== src/Blossomsrv.antt =====
-- internal/blossomsrv/server.go: the local Blossom server.
pub mod Store
pub mod Handlers
