-- ===== src/Recovery.antt =====
-- Recovery execution: one authoritative attempt whose reviewer actions, provider calls and workers
-- share one SQLite database.
pub mod Records
pub mod Database
pub mod Fencing
pub mod Chaining
pub mod Coordinator
pub mod ActionStore
pub mod ProviderCalls
pub mod Interruption
pub mod Seal
pub mod System
