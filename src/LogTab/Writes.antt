-- ===== src/LogTab/Writes.antt =====
-- What `write`, `clear` and `delete` of kelso/lib/logtab.py do to the table that is read.
pub mod Laws
pub mod Refused
pub mod Whole
