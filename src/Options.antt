-- ===== src/Options.antt =====
-- kelso/lib/options.py: the options that every app has.
pub mod Defs
pub mod Order
mod Tests
