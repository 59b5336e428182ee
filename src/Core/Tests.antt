-- ===== src/Core/Tests.antt =====
-- Runs of the core on small inputs.
mod Tasks
mod Poses
mod Calls
mod Config
mod Page
