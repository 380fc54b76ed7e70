-- ===== src/Http/Curl.antt =====
-- What src/proto-http.c takes from outside the repository: libcurl, json-c, ELL's `l_io` and the C
-- library. None of it is defined here.
use knot_service_source.Common.{ℕ, Option, Bool, List, ◌⊎◌}
use knot_service_source.Env.Messages.{Bytes}
use knot_service_source.Env.Json.{JsonC}

-- A header of a request: "meshblu_auth_uuid: " and the text, "meshblu_auth_token: " and the text,
-- "Accept: application/json", "Content-Type: application/json" and "charsets: utf-8".
pub data Header : Type 0 where
  auth_uuid auth_token : Bytes → Header
  accept content_type charsets : Header

-- The options of an easy handle that `fetch_url` sets and that vary.
pub record Request : Type 0 where
  -- The socket that libcurl is given in place of its own.
  pub opensocket : Option ℕ
  pub custom_request : Bytes
  pub url : Bytes
  pub headers : List Header
  pub postfields : Option Bytes

-- What a transfer does.
pub record Transfer : Type 0 where
  -- The calls of the write function: the contents, and whether `realloc` has memory for them.
  pub chunks : List (Bytes × Bool)
  -- `curl_easy_perform` returns CURLE_OK.
  pub performed : Bool
  -- The response code, where `curl_easy_getinfo` returns CURLE_OK.
  pub response_code : Option ℕ

pub record Curl : Type 1 where
  pub json : JsonC
  pub open json use *
  pub World : Type 0
  -- Whether there is an easy handle.
  pub easy_init : World → Bool × World
  pub perform : Request → World → Transfer × World
  -- Whether `realloc` has memory for so many bytes.
  pub realloc : ℕ → World → Bool × World
  -- `free` of the text that a buffer points to.
  pub free : Bytes → World → World
  pub toupper : ℕ → ℕ
  -- `printf` of an `unsigned int` with "%u".
  pub printf_u : ℕ → Bytes
  -- A socket, or `errno`.
  pub socket : World → (ℕ ⊎ ℕ) × World
  -- `connect` to an address and a port: `errno` where it fails.
  pub connect : ℕ → ℕ → ℕ → World → Option ℕ × World
  pub close : ℕ → World → World
  -- The address of a host, or `h_errno`.
  pub gethostbyname : Option Bytes → World → (ℕ ⊎ ℕ) × World
  -- The address of a new `struct l_io` for a socket, NULL where ELL cannot watch it.
  pub l_io_new : ℕ → World → Option ℕ × World
