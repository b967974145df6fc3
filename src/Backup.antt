-- ===== src/Backup.antt =====
-- kelso/lib/backup.py: which backups a keep policy drops.
pub mod Expired
pub mod Newest
pub mod Take
pub mod Restarts
pub mod Listing
pub mod Due
mod Tests
