-- ===== src/Api.antt =====
-- internal/api: the management API.
pub mod Authz
