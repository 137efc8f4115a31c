-- ===== src/Bus.antt =====
-- crates/common-msgbus: the bus between the services.
pub mod Messages
pub mod Tokio
pub mod Maps
pub mod Mock
pub mod Tests
