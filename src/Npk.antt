-- ===== src/Npk.antt =====
-- internal/npk: releases, the local catalogue and bundles.
pub mod Release
pub mod Bundle
