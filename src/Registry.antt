-- ===== src/Registry.antt =====
-- services/device-registry: rooms, devices and their capabilities, in a database.
pub mod Database
pub mod Handlers
mod Tests
