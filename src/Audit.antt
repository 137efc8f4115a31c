-- ===== src/Audit.antt =====
-- services/audit-log: the log of what was done to the hub.
pub mod Log
