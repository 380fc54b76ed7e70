-- ===== src/Ws.antt =====
-- src/proto-ws.c: the table of connections, and the requests to the cloud.
pub mod Table
pub mod Places
pub mod Service
pub mod Receive
pub mod Request
pub mod Waited
pub mod Answers
pub mod Returned
pub mod Examples
mod Checks
