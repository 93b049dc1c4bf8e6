-- ===== src/Config.antt =====
-- internal/config/config.go: the settings (Settings), `Validate` and `Load` (Checks).
pub mod Settings
pub mod Checks
pub mod Customs
