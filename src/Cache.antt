-- ===== src/Cache.antt =====
-- internal/cache/cache.go: the blob store on disk and the manifest cache in memory.
pub mod BlobStore
pub mod ManifestCache
