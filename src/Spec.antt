-- ===== src/Spec.antt =====
-- kelso/lib/spec.py: what a manifest defines.
pub mod Defs
pub mod Build
pub mod Units
pub mod Built
pub mod Settings
mod Tests
