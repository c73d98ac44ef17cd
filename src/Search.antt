-- ===== src/Search.antt =====
-- internal/search: the index of a search node in memory and its queries.
pub mod Index
pub mod Postings
pub mod Ranking
pub mod Described
pub mod Answers
mod Tests
