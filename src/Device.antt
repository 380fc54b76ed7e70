-- ===== src/Device.antt =====
-- src/device.c and src/proxy.c: the radios' devices, shown to D-Bus clients.
pub mod Bus
pub mod Objects
pub mod Proxy
pub mod Invariant
pub mod Kept
pub mod Watched
pub mod Run
pub mod Safety
pub mod Pairing
pub mod Examples
