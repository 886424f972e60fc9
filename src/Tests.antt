-- ===== src/Tests.antt =====
-- Runs at concrete inputs, and each theorem at an input that meets its hypotheses.
mod Presence
mod Supervisor
mod Sessions
mod Storage
mod Reconciler
mod Messages
mod PiDriver
mod Runtime
