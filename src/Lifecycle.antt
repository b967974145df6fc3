-- ===== src/Lifecycle.antt =====
-- kelso/lib/lifecycle: what is decided before files and containers change.
pub mod Volumes
pub mod Orphans
mod Tests
