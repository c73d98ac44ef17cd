-- ===== src/Wal.antt =====
-- internal/wal/log.go: the write-ahead log, from the bytes of a record up to crash recovery.
pub mod Error
pub mod Record
pub mod Frame
pub mod Scan
pub mod Disk
pub mod Writer
pub mod Log
