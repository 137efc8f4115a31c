-- ===== src/Updater.antt =====
-- services/updater: the A/B slot updater.
pub mod Slots
pub mod State
pub mod Store
pub mod Core
pub mod Bundle
pub mod Health
pub mod Http
mod Tests
