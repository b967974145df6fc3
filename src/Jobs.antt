-- ===== src/Jobs.antt =====
-- kelso/jobs: the verbs that kelsod can be asked for, and the queue that runs them one by one.
pub mod Job
pub mod Runner
mod Tests
