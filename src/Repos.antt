-- ===== src/Repos.antt =====
-- kelso/lib/repo.py and the repositories of kelso/lib/config.py: where the bundles of apps are found.
pub mod Url
pub mod Resolve
pub mod Read
pub mod Apart
mod Tests
