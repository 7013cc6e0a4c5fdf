-- ===== src/History.antt =====
-- internal/history: the local shell history.
pub mod Cache
pub mod Entry
pub mod Table
