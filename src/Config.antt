-- ===== src/Config.antt =====
-- internal/config: the group mapping file.
pub mod GroupMap
