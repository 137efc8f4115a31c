-- ===== src/Gateway.antt =====
-- services/api-gateway: the gateway in front of the services.
pub mod Rbac
pub mod Errors
pub mod RateLimit
pub mod Guards
pub mod Commissioning
mod Tests
