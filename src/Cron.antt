-- ===== src/Cron.antt =====
-- kelso/lib/cronexpr.py: five-field cron schedules and the search for their next time.
pub mod Calendar
pub mod Field
pub mod Schedule
mod Tests
