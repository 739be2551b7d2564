-- ===== src/Core.antt =====
-- app/core: the errors that the services raise, and the texts that they store.
pub mod Errors
pub mod Texts
pub mod Guards
