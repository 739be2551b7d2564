-- ===== src/Application.antt =====
-- app/application: the application attempt and its engine.
pub mod Models
pub mod Rows
pub mod KillSwitch
pub mod Engine
mod Tests
