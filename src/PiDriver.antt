-- ===== src/PiDriver.antt =====
-- internal/pidriver/rpc.go: one pi process in RPC mode, and the messages on their way to it.
--
-- The driver's lock is free between the calls of a handler, and four goroutines share the state: the
-- reader appends to `lines`, the writer takes from `writes`, callers append to `outgoing` and to
-- `history_requests`, and only the run loop touches the rest. A handler of the run loop is one step
-- here, since what the others do meanwhile commutes with it, but for the exit of pi, which is taken to
-- fall between two steps.
pub mod Types
pub mod Commands
pub mod Interrupts
pub mod Handle
pub mod Run
pub mod Actions
pub mod Ledger
pub mod Drain
pub mod Version
pub mod Tools
