-- ===== src/Sdk.antt =====
-- pkg/agentsdk: the agent's side of the protocol.
pub mod Topic
pub mod Mqtt
pub mod LinkedList
pub mod TaskManager
pub mod Stream
pub mod Agent
pub mod Telemetry
pub mod Slamtec
pub mod PoseStream
pub mod Registration
mod Tests
mod StreamTests
mod AgentTests
mod SlamtecTests
mod PoseStreamTests
