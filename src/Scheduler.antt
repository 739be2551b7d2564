-- ===== src/Scheduler.antt =====
-- app/scheduler: caps, attempts and the decision about one candidate opportunity.
pub mod Caps
pub mod Attempts
pub mod Decisions
mod Tests
