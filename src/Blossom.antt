-- ===== src/Blossom.antt =====
-- internal/blossom: the fetcher.
pub mod Fetch
pub mod Classify
pub mod Dial
