-- ===== src/Http.antt =====
-- src/proto-http.c: the HTTP driver. Each definition takes what the file calls, libcurl, json-c and
-- the sockets, as the argument `c : Curl`.
pub mod Curl
pub mod Fetch
pub mod Driver
pub mod Fetched
pub mod Described
pub mod Cloud
pub mod Signin
pub mod Watch
pub mod Watched
pub mod Views
pub mod Events
pub mod Refine
mod Examples
