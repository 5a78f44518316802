-- ===== src/Storage.antt =====
-- internal/storage: the write-ahead log.
pub mod Disk
pub mod Frames
pub mod Wal
