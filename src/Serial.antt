-- ===== src/Serial.antt =====
-- src/node-serial.c.
pub mod Bits
pub mod Pipes
pub mod Ids
pub mod Forward
pub mod Examples
