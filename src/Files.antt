-- ===== src/Files.antt =====
-- internal/files: the metadata of files and the store of the metadata server.
pub mod Dict
pub mod Meta
pub mod Store
pub mod Replay
pub mod Restoring
pub mod Keys
pub mod Recovery
pub mod Failures
