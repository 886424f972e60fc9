-- ===== src/PiDriver/Ledger.antt =====
-- internal/pidriver/rpc.go
pub mod Ids
pub mod Books
pub mod Steps
pub mod Answers
pub mod Runs
