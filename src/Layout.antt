-- ===== src/Layout.antt =====
-- kelso/lib/run_layout.py: what an app runs with on this machine.
pub mod Data
pub mod Machine
pub mod Volumes
pub mod Routes
pub mod Resolve
pub mod Environment
pub mod Compose
pub mod Secrets
pub mod Resolved
pub mod Project
mod Tests
