-- ===== src/Supervisor/Runtime.antt =====
-- internal/supervisor: what the daemon does by itself, from its start to its end (supervisor.go,
-- headless.go, presence.go, attached.go): adopting the saved agents, one tick of each agent, removal and
-- shutdown.
pub mod Outside
pub mod Branches
pub mod Polling
pub mod Tmux
pub mod Headless
pub mod Progress
pub mod Ticks
pub mod Boot
pub mod Ending
