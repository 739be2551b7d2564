-- ===== src/Signals.antt =====
-- app/signals: what happened to an application after it went out.
pub mod Models
pub mod Outcomes
mod Tests
