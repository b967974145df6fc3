-- ===== src/Store.antt =====
-- kelso/lib/store.py: kelso's own state and each app's, in stores of JSON values by key.
pub mod Json
pub mod Config
pub mod App
pub mod Kelso
pub mod Memory
mod Tests
pub mod JsonLogtab
pub mod JsonStore
mod Printer
mod JsonTests
