-- ===== src/Utils.antt =====
-- supervisor/utils: helpers that the components share.
pub mod Excerpt
