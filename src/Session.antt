-- ===== src/Session.antt =====
-- src/session.c.
pub mod Driver
pub mod State
pub mod Channels
pub mod Node
pub mod Invariant
pub mod Steps
pub mod Entries
pub mod Kept
pub mod Handlers
pub mod Run
pub mod Safety
pub mod Gateway
pub mod Examples
