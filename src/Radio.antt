-- ===== src/Radio.antt =====
-- services/radio-coord: the service that sets the radio of a home.
pub mod Requests
pub mod Map
pub mod Handlers
mod Tests
