-- ===== src/Nip5a.antt =====
-- internal/nip5a: the host-label codec (Base36, Label) and the manifest rules.
pub mod Base36
pub mod Label
pub mod Manifest
pub mod Validate
