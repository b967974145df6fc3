-- ===== src/Names.antt =====
-- kelso/lib/util.py and kelso/lib/apps.py: the names that kelso takes, and the ids of apps.
pub mod Defs
pub mod Safe
mod Tests
