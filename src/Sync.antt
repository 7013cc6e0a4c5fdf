-- ===== src/Sync.antt =====
-- internal/sync: event replication between devices over untrusted object storage.
pub mod Frontier
pub mod Transport
pub mod Ack
pub mod Checkpoint
pub mod Event
pub mod Bundle
pub mod Snapshot
pub mod Db
pub mod Events
pub mod Heads
pub mod Merge
pub mod Engine
pub mod Publish
pub mod Metadata
pub mod Generations
pub mod Gc
pub mod Equalize
pub mod Bootstrap
