-- ===== src/Reconciler.antt =====
-- internal/machinectl/reconcile.go: one check of the machine's agents against the server.
pub mod Types
pub mod Apply
pub mod Seeding
pub mod Check
pub mod Order
pub mod Retry
pub mod SeedReply
