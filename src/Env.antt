-- ===== src/Env.antt =====
-- What src/msg.c takes from outside the repository: json-c, the KNOT protocol headers
-- (knot_protocol.h, knot_types.h), the cloud driver behind `struct proto_ops` and the system calls.
-- None of it is defined here: every definition of `Msg` takes it as the argument `e : Env`.
pub mod Json
pub mod Headers
pub mod Messages
pub mod Raw
use knot_service_source.Common.{ℕ, ℤ, Option, Bool, List}
use Json.{JsonC}
use Headers.{Protocol}
use Messages.{NodeMsg, Bytes}

-- `json_raw_t`: the text, or nothing where `data` is NULL.
abbrev pub Response : Type 0
Response = Option Bytes

pub record Env : Type 1 where
  pub json : JsonC
  pub open json use *
  pub protocol : Protocol
  pub open protocol use *
  -- Whatever the operations below read and change: sockets, the cloud, memory they own.
  pub World : Type 0
  -- `struct proto_ops`: the response buffer goes in as it is and comes back beside the result.
  pub mknode : ℕ → Bytes → Response → World → ℤ × Response × World
  pub signin : ℕ → Bytes → Bytes → Response → World → ℤ × Response × World
  pub rmnode : ℕ → Bytes → Bytes → Response → World → ℤ × Response × World
  pub schema : ℕ → Bytes → Bytes → Bytes → Response → World → ℤ × Response × World
  pub send_data : ℕ → Bytes → Bytes → Bytes → Response → World → ℤ × Response × World
  pub fetch : ℕ → Bytes → Bytes → Response → World → ℤ × Response × World
  pub setdata : ℕ → Bytes → Bytes → Bytes → Response → World → ℤ × Response × World
  -- The id of a new watch; whether stopping one runs its destroy callback before it returns.
  pub async : ℕ → Bytes → Bytes → World → ℕ × World
  pub async_stop : ℕ → ℕ → World → Bool × World
  -- The result of `getsockopt` with SO_PEERCRED, and the pid; the number of bytes that `write` sent
  -- (negative on an error) and `errno`.
  pub peer_cred : ℕ → World → ℤ × ℕ
  pub write : ℕ → NodeMsg Val → ℕ → World → ℤ × ℕ × World
  -- The bytes that an automatic `json_raw_t` happens to hold before it is written.
  pub stack : World → Response
