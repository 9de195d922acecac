-- ===== src/Agent.antt =====
-- internal/agent
pub mod Render
pub mod Settings
pub mod Host
pub mod Docker
pub mod Status
pub mod Sync
pub mod Imds
mod Examples
mod Rounds
