-- ===== src/Cache.antt =====
-- The parts of internal/cache: the names and keys, one module per file, and the hashserv package.
pub mod Resource
pub mod Routes
pub mod Policy
pub mod Hashserv
pub mod ByteStream
