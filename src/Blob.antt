-- ===== src/Blob.antt =====
-- internal/blob: the object cache and the service over it.
pub mod Lru
pub mod Service
