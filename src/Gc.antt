-- ===== src/Gc.antt =====
-- internal/gc: what the sweep retains and what it evicts.
pub mod Plan
pub mod Quota
pub mod Sweep
pub mod Sstate
pub mod Engine
