-- ===== src/Receipt.antt =====
-- kelso/lib/receipt.py: what a person is shown of an app.
pub mod Defs
pub mod Shown
mod Tests
