-- ===== src/LogTab.antt =====
-- kelso/lib/logtab.py: an append-only key-value table in a text file.
pub mod Row
pub mod File
pub mod Table
pub mod Compact
pub mod Writes
mod Tests
