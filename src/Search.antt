-- ===== src/Search.antt =====
-- internal/search/rank.go: ranking the entries of the history for a query.
pub mod Span
pub mod Reach
pub mod Stretch
pub mod Shortest
pub mod Words
pub mod Rank
pub mod Suggestions
pub mod Order
pub mod Matches
