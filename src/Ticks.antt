-- ===== src/Ticks.antt =====
-- kelso/lib/lifecycle/cron.py: the cron jobs of the apps, and the tick that runs those that are due.
pub mod Defs
pub mod Due
mod Tests
