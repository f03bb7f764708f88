-- ===== src/Sync.antt =====
-- Cloud synchronisation: app/src/electron/managers.
pub mod Chunks
pub mod Policy
pub mod Upload
pub mod Pull
pub mod Session
pub mod Gate
pub mod Commands
