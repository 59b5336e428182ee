-- ===== src/Core.antt =====
-- cmd/core: the central server.
pub mod Task
pub mod Repo
pub mod Dispatcher
pub mod Auth
pub mod Agents
pub mod Missions
pub mod Poses
pub mod Config
pub mod Ui
pub mod ControlPlane
pub mod Api
mod Tests
