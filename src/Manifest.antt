-- ===== src/Manifest.antt =====
-- kelso/lib/manifest.py: the port of a route.
pub mod Port
pub mod Entries
pub mod Words
pub mod Checks
pub mod Validate
pub mod Routes
pub mod Valid
pub mod Sound
pub mod Paths
pub mod Bounds
pub mod Samples
pub mod Parses
mod Tests
