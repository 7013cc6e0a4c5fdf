-- ===== src/Sync/Gc.antt =====
-- internal/sync/gc/gc.go: which objects of the remote storage are no longer needed.
pub mod Best
pub mod Layout
pub mod Plan
