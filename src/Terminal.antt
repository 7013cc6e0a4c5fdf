-- ===== src/Terminal.antt =====
-- The terminal emulator behind the overlay: internal/terminal.
pub mod Slices
pub mod InputQueue
pub mod ParseQueue
