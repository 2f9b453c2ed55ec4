-- ===== src/Sync.antt =====
-- src/services/sync: the import of users and classes from files.
pub mod Stats
pub mod Records
pub mod Classes
pub mod Importer
pub mod Users
mod Tests
