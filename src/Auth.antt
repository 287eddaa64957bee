-- ===== src/Auth.antt =====
-- internal/auth: who a caller is, and what the caller may do.
pub mod Principal
pub mod Reconcile
pub mod PrincipalCache
pub mod Tokens
pub mod Callers
