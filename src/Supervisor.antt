-- ===== src/Supervisor.antt =====
-- internal/supervisor: the daemon's manager of agents.
pub mod Types
pub mod World
pub mod Sessions
pub mod Attach
pub mod Attached
pub mod Crash
pub mod Lifecycle
pub mod Feed
pub mod Desired
pub mod Runtime
pub mod Takeover
pub mod Delivery
