-- ===== src/Updown.antt =====
-- kelso/lib/lifecycle/updown.py: bringing the box up or down, one start group at a time.
pub mod Groups
pub mod Order
pub mod Sorted
pub mod Run
pub mod Acts
pub mod Wait
mod Tests
