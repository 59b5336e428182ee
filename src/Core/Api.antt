-- ===== src/Core/Api.antt =====
-- cmd/core/controller: the services that clients, agents and missions call.
pub mod Tasks
pub mod Agents
pub mod Missions
pub mod AgentStream
pub mod Operators
pub mod AgentList
pub mod Telemetry
pub mod Live
