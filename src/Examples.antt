-- ===== src/Examples.antt =====
-- Concrete messages, logs and stores, on which the theorems are applied.
pub mod Samples
pub mod Frames
pub mod Logs
pub mod Servers
pub mod Requests
pub mod Uploads
pub mod Chunks
pub mod Jobs
pub mod Pools
pub mod Workloads
pub mod Downloads
pub mod Settings
pub mod Registrations
pub mod Transfers
pub mod Listeners
pub mod Crashes
pub mod Journeys
