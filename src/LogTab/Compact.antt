-- ===== src/LogTab/Compact.antt =====
-- `compact` of kelso/lib/logtab.py keeps what the table holds.
pub mod Rows
pub mod Writable
pub mod Keeps
