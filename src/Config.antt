-- ===== src/Config.antt =====
-- kelso/lib/config.py: the providers of a route, as a person writes them.
pub mod Providers
pub mod RoundTrip
pub mod File
pub mod Load
pub mod Valid
pub mod Edit
pub mod Edited
pub mod Written
mod Tests
mod FileTests
