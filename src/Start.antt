-- ===== src/Start.antt =====
-- src/settings.c, src/node.c and src/manager.c: how the service is configured, started and stopped.
pub mod Settings
pub mod Loaded
pub mod Servers
pub mod Removed
pub mod Parts
mod Examples
