-- ===== src/Msg/Examples.antt =====
-- A small service to run src/msg.c in: what the theorems say of it at concrete inputs.
pub mod Service
pub mod Checks
pub mod Reports
