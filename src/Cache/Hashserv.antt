-- ===== src/Cache/Hashserv.antt =====
-- internal/cache/hashserv: the server of hash equivalence of the Yocto builds. The files below this
-- one follow the Go files: permissions, the two tables, the store over them, the framing of
-- messages, and the sessions that tie these together.
pub mod Perms
pub mod Exec
pub mod Protocol
pub mod Tables
pub mod World
pub mod Store
pub mod Framing
pub mod Session
pub mod Toucher
mod Tests
