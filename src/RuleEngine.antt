-- ===== src/RuleEngine.antt =====
-- services/rule-engine: rules, their schedules, and the traces of their executions.
pub mod Json
pub mod Rules
pub mod Schedule
pub mod Evaluate
pub mod Traces
pub mod Engine
mod Tests
