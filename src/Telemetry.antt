-- ===== src/Telemetry.antt =====
-- cmd/core/telemetry: what core does with the telemetry of its agents.
pub mod Violation
pub mod Throttle
pub mod Store
pub mod Query
pub mod Live
pub mod Json
pub mod Mapping
pub mod Registry
pub mod Validate
pub mod Pipeline
pub mod AgentEvents
mod Tests
mod ContractTests
mod EventTests
