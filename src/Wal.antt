-- ===== src/Wal.antt =====
-- internal/wal: the write-ahead log of the metadata server.
pub mod Entry
pub mod Names
pub mod Disk
pub mod Buffer
pub mod State
pub mod Segments
pub mod Append
pub mod Read
pub mod Snapshot
pub mod Options
pub mod Log
