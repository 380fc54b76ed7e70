-- ===== src/Ws/Service.antt =====
-- What the requests of src/proto-ws.c take from outside: libwebsockets, json-c and the C library.
use knot_service_source.Common.{ℕ, Bool, List}
use knot_service_source.Env.Json.{JsonC}
use knot_service_source.Env.Messages.{Bytes}

-- A call of `callback_lws_http`: a websocket receives a text, it may be written to, a connection has
-- failed, or one is closed. `failed` tells whether `lws_write` returns a negative number.
pub data Callback : Type 0 where
  receive : (wsi : ℕ) (text : Bytes) → Callback
  writeable : (wsi : ℕ) (failed : Bool) → Callback
  client_connection_failed : Callback
  closed : (wsi : ℕ) → Callback

-- `sscanf(resp, "%1d", &n)`: the end of the input, no digit, or the digit.
pub data Scan : Type 0 where
  at_end no_digit : Scan
  digit : ℕ → Scan

pub record Service : Type 1 where
  pub json : JsonC
  pub open json use *
  pub World : Type 0
  -- The callbacks of one `lws_service`.
  pub service : World → List Callback × World
  pub on_writable : ℕ → World → World
  pub socket_fd : ℕ → ℕ
  pub seconds : World → ℕ
  pub scan_digit : Bytes → Scan
  -- Whether `realloc` has memory for so many bytes.
  pub realloc : ℕ → World → Bool × World
