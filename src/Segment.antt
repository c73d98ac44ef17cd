-- ===== src/Segment.antt =====
-- internal/segment: the immutable segments of a search index, as files and as a store.
pub mod Codec
pub mod Directory
pub mod Store
mod Tests
