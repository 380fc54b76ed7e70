-- ===== src/Msg.antt =====
-- src/msg.c.
pub mod Hoare
pub mod State
pub mod Trust
pub mod Config
pub mod Parse
pub mod Cloud
pub mod Quiet
pub mod Register
pub mod Data
pub mod Process
pub mod Changed
pub mod Lifetime
pub mod Run
pub mod Safety
pub mod Refused
pub mod Configured
pub mod Registered
pub mod SchemaLost
pub mod Reported
pub mod Parsed
pub mod Forwarded
pub mod Answered
pub mod Created
pub mod Stopped
pub mod Examples
