-- ===== src/Http/Driver.antt =====
-- src/proto-http.c: the operations of `proto_http` on one device, and the connection to the server.
use knot_service_source.Common.{
  ℕ, zero, suc, ◌+◌, ◌%◌, ◌^◌, ℤ, pos, negsuc, is_neg, Option, none, some, List, [], ◌∷◌, ◌++◌,
  length, take, inl, inr, if◌then◌else◌,
}
use knot_service_source.Env.Messages.{Bytes}
use knot_service_source.Http.Curl.{Curl}
use knot_service_source.Env.Raw.{JsonRaw}
use knot_service_source.Http.Fetch.{einval, fetch_url, check_json}

-- The table `timeouts`: NULL before the first probe; freed by `http_remove`; or its entries, ids and what
-- the timers hold as user data, the addresses of `struct to_fetch`.
pub data Timeouts : Type 0 where
  not_made freed : Timeouts
  holds : List (ℕ × ℕ) → Timeouts

-- The static variables.
pub record Globals : Type 0 where
  pub host_addr : ℕ
  pub host_port : ℕ
  pub host_uri : Bytes
  pub device_uri : Bytes
  pub data_uri : Bytes
  pub timeouts : Timeouts
  pub next_timeout_id : ℕ

-- `-err`.
abbrev pub neg : ℕ → ℤ
neg zero = pos 0
neg (suc n) = negsuc n

-- The buffer is as long as the URI, a slash, 36 characters and the NUL.
unfoldable pub device_path : Bytes → Bytes → Bytes
device_path uri uuid = take (length uri + 37) (uri ++ b'/' ∷ uuid)

abbrev pub post : Bytes
post = b'P' ∷ b'O' ∷ b'S' ∷ b'T' ∷ []

abbrev pub get : Bytes
get = b'G' ∷ b'E' ∷ b'T' ∷ []

abbrev pub put : Bytes
put = b'P' ∷ b'U' ∷ b'T' ∷ []

abbrev pub delete : Bytes
delete = b'D' ∷ b'E' ∷ b'L' ∷ b'E' ∷ b'T' ∷ b'E' ∷ []

abbrev pub localhost : Bytes
localhost = b'l' ∷ b'o' ∷ b'c' ∷ b'a' ∷ b'l' ∷ b'h' ∷ b'o' ∷ b's' ∷ b't' ∷ []

abbrev pub devices : Bytes
devices = b'/' ∷ b'd' ∷ b'e' ∷ b'v' ∷ b'i' ∷ b'c' ∷ b'e' ∷ b's' ∷ []

abbrev pub data_path : Bytes
data_path = b'/' ∷ b'd' ∷ b'a' ∷ b't' ∷ b'a' ∷ []

module _ (c : Curl) where
  -- The result code, the buffer and the world.
  abbrev pub Reply : Type 0
  Reply = ℤ × JsonRaw × c.World

  -- A failure keeps its code; a text that is no description of one device is -EINVAL.
  unfoldable pub checked : Reply → Reply
  unfolding check_json
  checked (err, json, w) =
      let (bad, json', w') = check_json c json.text json w in
      if is_neg err
      then (err, json, w)
      else if is_neg bad
      then (einval, json', w')
      else (err, json', w')

  module _ (g : Globals) where
    unfoldable pub http_mknode : ℤ → Bytes → JsonRaw → c.World → Reply
    unfolding fetch_url
    http_mknode sock jreq json w =
        fetch_url c sock g.device_uri (some jreq) none none json (some post) w

    unfoldable pub http_signin : ℤ → Bytes → Bytes → JsonRaw → c.World → Reply
    unfolding fetch_url checked device_path
    http_signin sock uuid token json w = checked (
        fetch_url c sock (device_path g.device_uri uuid) none (some uuid) (some token) json
          (some get) w)

    unfoldable pub http_rmnode : ℤ → Bytes → Bytes → JsonRaw → c.World → Reply
    unfolding fetch_url device_path
    http_rmnode sock uuid token jbuf w =
        fetch_url c sock (device_path g.device_uri uuid) none (some uuid) (some token) jbuf
          (some delete) w

    unfoldable pub http_schema : ℤ → Bytes → Bytes → Bytes → JsonRaw → c.World → Reply
    unfolding fetch_url device_path
    http_schema sock uuid token jreq json w =
        fetch_url c sock (device_path g.device_uri uuid) (some jreq) (some uuid) (some token) json
          (some put) w

    unfoldable pub http_data : ℤ → Bytes → Bytes → Bytes → JsonRaw → c.World → Reply
    unfolding fetch_url device_path
    http_data sock uuid token jreq json w =
        fetch_url c sock (device_path g.data_uri uuid) (some jreq) (some uuid) (some token) json
          (some post) w

    unfoldable pub http_setdata : ℤ → Bytes → Bytes → Bytes → JsonRaw → c.World → Reply
    unfolding fetch_url device_path
    http_setdata sock uuid token jreq json w =
        fetch_url c sock (device_path g.device_uri uuid) (some jreq) (some uuid) (some token) json
          (some put) w

    unfoldable pub http_fetch : ℤ → Bytes → Bytes → JsonRaw → c.World → Reply
    unfolding fetch_url checked device_path
    http_fetch sock uuid token json w = checked (
        fetch_url c sock (device_path g.device_uri uuid) none (some uuid) (some token) json
          (some get) w)

    -- A socket that does not connect is closed again. The port goes through `htons`, 16 bits.
    unfoldable pub connect_socket : ℕ → c.World → ℤ × c.World
    connect_socket sock w =
        let (refused, w') = c.connect sock g.host_addr (g.host_port % 2 ^ 16) w in
        elim refused [ none ↦ (pos sock, w') | some err ↦ (neg err, c.close sock w') ]

    unfoldable pub http_connect : c.World → ℤ × c.World
    unfolding connect_socket
    http_connect w =
        let (opened, w') = c.socket w in
        elim opened [ inr err ↦ (neg err, w') | inl sock ↦ connect_socket sock w' ]

  abbrev pub host_or_default : Option Bytes → Bytes
  host_or_default none = localhost
  host_or_default (some host) = host

  -- The addresses are set before the host is looked up, and stay where that fails.
  unfoldable pub http_probe : Option Bytes → ℕ → Globals → c.World → ℤ × Globals × c.World
  http_probe host port g w =
      let host_uri = host_or_default host ++ b':' ∷ c.printf_u port in
      let g' : Globals = record g {
        host_port = port;
        host_uri = host_uri;
        device_uri = host_uri ++ devices;
        data_uri = host_uri ++ data_path;
      } in
      let (found, w') = c.gethostbyname host w in
      elim found [
        | inr err ↦ (neg err, g', w')
        | inl addr ↦ (pos 0, record g' { host_addr = addr; timeouts = holds [] }, w')
      ]
