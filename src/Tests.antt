-- ===== src/Tests.antt =====
-- The theorems at concrete inputs, and tests of the definitions.
mod Labels
mod Manifests
mod Caches
mod Blossom
mod Servers
mod Fetches
mod Releases
mod Bundles
mod Dials
mod Uploads
mod Configs
mod Reloads
mod Internals
mod Loads
mod Gateways
pub mod Fixtures
