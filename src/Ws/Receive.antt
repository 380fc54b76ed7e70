-- ===== src/Ws/Receive.antt =====
-- src/proto-ws.c: what the callbacks of libwebsockets do, and the text of a reply.
use knot_service_source.Common.{
  ℕ, ◌+◌, ℤ, pos, negsuc, Bool, true, false, Option, none, some, List, [], ◌∷◌, ◌++◌, length, take,
  lookup, bytes_eq, if◌then◌else◌, ◌==◌, String,
}
use knot_service_source.Common.Monad.{
  M, ok, pure, modify, gets, fail, or_fault, dangling, null_pointer, uninitialised, ◌>>=◌, ◌>>◌,
}
use knot_service_source.Env.Messages.{Bytes}
use knot_service_source.Env.Raw.{JsonRaw}
use knot_service_source.Ws.Service.{
  Service, Callback, receive, writeable, client_connection_failed, closed, at_end, no_digit, digit,
}

-- `struct per_session_data_ws`; `watch` is the user data of `watch_cb`, where that is set.
pub record Psd : Type 0 where
  pub index : ℕ
  pub buffer : Bytes
  pub len : ℕ
  pub json : Option Bytes
  pub watch : Option ℕ
  pub interval : ℕ

abbrev pub starts_with : Bytes → Bytes → Bool
starts_with text prefix = bytes_eq (take (length prefix) text) prefix

-- `["identify"]`, `["ready"`, `["notReady"` and `["config",{`.
abbrev pub identify_request : Bytes
identify_request =
    b'[' ∷ b'"' ∷ b'i' ∷ b'd' ∷ b'e' ∷ b'n' ∷ b't' ∷ b'i' ∷ b'f' ∷ b'y' ∷ b'"' ∷ b']' ∷ []

abbrev pub ready_response : Bytes
ready_response = b'[' ∷ b'"' ∷ b'r' ∷ b'e' ∷ b'a' ∷ b'd' ∷ b'y' ∷ b'"' ∷ []

abbrev pub not_ready_response : Bytes
not_ready_response = b'[' ∷ b'"' ∷ b'n' ∷ b'o' ∷ b't' ∷ b'R' ∷ b'e' ∷ b'a' ∷ b'd' ∷ b'y' ∷ b'"' ∷ []

abbrev pub config_msg : Bytes
config_msg = b'[' ∷ b'"' ∷ b'c' ∷ b'o' ∷ b'n' ∷ b'f' ∷ b'i' ∷ b'g' ∷ b'"' ∷ b',' ∷ b'{' ∷ []

-- From the first '[' on.
abbrev pub from_bracket : Bytes → Bytes
from_bracket [] = []
from_bracket (x ∷ rest) = if x == b'[' then x ∷ rest else from_bracket rest

module _ (l : Service) where
  -- The static variables, and what they point to; `written` are the calls of `lws_write`, the buffer and the
  -- length, `watched` those of `watch_cb`.
  pub record State : Type 0 where
    pub got_response : Bool
    pub connection_error : Bool
    pub connected : Bool
    pub client_connection_error : Bool
    pub ready : Bool
    pub psd : Option ℕ
    pub heap : ℕ → Option Psd
    pub wstable : List (ℕ × ℕ)
    pub wsis : List ℕ
    pub written : List (Bytes × ℕ)
    pub watched : List (JsonRaw × ℕ)
    pub world : l.World

  abbrev pub Action : Type 0 → Type 0
  Action A = M State A

  abbrev pub deref : Option ℕ → Action (ℕ × Psd)
  deref none s = fail null_pointer s
  deref (some a) s = (or_fault (s.heap a) dangling >>= λ t. pure (a, t)) s

  abbrev pub assign : ℕ → Psd → Action (Unit {0})
  assign a t = modify λ s. record s { heap = λ x. if x == a then some t else s.heap x }

  abbrev pub outside : {A : Type 0} → (l.World → A × l.World) → Action A
  outside f s = let (x, w) = f s.world in ok (x, record s { world = w })

  -- The text is appended to the buffer.
  abbrev pub append_text : JsonRaw → Bytes → JsonRaw
  append_text json text = record {
    text = some (take json.size (elim json.text [ none ↦ [] | some d ↦ d ]) ++ text ++ 0 ∷ []);
    size = json.size + (length text + 1);
  }

  -- An object that may be NULL has no members then.
  abbrev pub member : Option l.Json → String → Option (Option l.Json)
  member none key = none
  member (some j) key = l.object_get_ex j key

  abbrev pub flatten : Option (Option l.Json) → Option l.Json
  flatten none = none
  flatten (some j) = j

  -- `jprop`, with the schema that stands under "1" as a member of its own.
  unfoldable pub with_schema : Option l.Json → Option l.Json
  with_schema jprop = elim (member jprop "1") [
    | none ↦ jprop
    | some jschema ↦ l.object_add jprop "schema" (flatten (member jschema "schema"))
  ]

  -- The text of the device if there is one, else of the first entry.
  unfoldable pub response_text : l.Json → Bytes
  unfolding with_schema
  response_text jres =
      let jobj = l.array_get_idx jres 0 in
      elim (flatten (member jobj "device")) [
        | none ↦ l.to_json_string jobj
        | some jprop ↦ l.to_json_string (with_schema (some jprop))
      ]

  abbrev pub store_response : JsonRaw → Bytes → Bool → ℤ × JsonRaw
  store_response json text false = (negsuc 11, record json { text = none })
  store_response json text true = (pos 0, append_text json text)

  unfoldable pub handle_response : JsonRaw → Action (ℤ × JsonRaw)
  unfolding response_text
  handle_response json = do
    psd ← gets λ s. s.psd
    found ← deref psd
    elim (l.tokener_parse found.1.json) [
      | none ↦ pure (negsuc 21, json)
      | some jres ↦ do
        memory ← outside (l.realloc (json.size + (length (response_text jres) + 1)))
        pure (store_response json (response_text jres) memory)
    ]

  -- The watch function of the websocket's session gets the second entry of the message.
  abbrev pub notify : Psd → Option l.Json → Bool → Action (Unit {0})
  notify t jobj memory = elim t.watch [
    | none ↦ pure tt
    | some user_data ↦
        if memory
        then (modify λ s. record s {
          watched =
              s.watched
              ++ (append_text (record { text = none; size = 0 }) (l.to_json_string jobj), user_data)
                ∷ [];
        })
        else pure tt
  ]

  unfoldable pub config_received : Bytes → ℕ → Action (Unit {0})
  config_received resp wsi = do
    found ← gets λ s. lookup (l.socket_fd wsi) s.wstable
    elim found [
      | none ↦ pure tt
      | some session_data ↦ elim (l.tokener_parse (some resp)) [
        | none ↦ pure tt
        | some jres ↦ do
          memory ← outside (l.realloc (length (l.to_json_string (l.array_get_idx jres 1)) + 1))
          data_of ← deref (some session_data)
          notify data_of.1 (l.array_get_idx jres 1) memory
      ]
    ]

  -- A reply to a request goes to the session of the last write.
  unfoldable pub reply_received : Bytes → Action (Unit {0})
  reply_received resp = do
    psd ← gets λ s. s.psd
    found ← deref psd
    assign found.0 (record found.1 { json = some resp })
    modify λ s. record s { got_response = true }

  unfoldable pub message_received : Bytes → ℕ → Action (Unit {0})
  unfolding config_received reply_received bytes_eq
  message_received resp wsi =
      if bytes_eq resp identify_request
      then modify (λ s. record s { connected = true })
      else if starts_with resp ready_response
      then modify (λ s. record s { ready = true })
      else if starts_with resp not_ready_response
      then modify (λ s. record s { connection_error = true; client_connection_error = true })
      else if starts_with resp config_msg
      then config_received resp wsi
      else reply_received resp

  -- EIO_OPEN is 0, EIO_PONG 3 and EIO_MSG 4; what `parse_handshake_data` reads is dropped.
  unfoldable pub packet_received : ℕ → Bytes → ℕ → Action (Unit {0})
  unfolding message_received
  packet_received packet_type resp wsi =
      if packet_type == 4 then message_received (from_bracket resp) wsi else pure tt

  unfoldable pub handle_cloud_response : Bytes → ℕ → Action (Unit {0})
  unfolding packet_received
  handle_cloud_response resp wsi = elim (l.scan_digit resp) [
    | at_end ↦ pure tt
    | no_digit ↦ fail uninitialised
    | digit packet_type ↦ packet_received packet_type resp wsi
  ]

  -- The time of the last ping is that of the session before; then the websocket's session is looked up.
  unfoldable pub client_writeable : ℕ → Bool → Action (Unit {0})
  client_writeable wsi failed = do
    psd ← gets λ s. s.psd
    before ← deref psd
    timenow ← gets λ s. l.seconds s.world
    assign before.0 (record before.1 { interval = timenow })
    modify λ s. record s { psd = lookup (l.socket_fd wsi) s.wstable }
    psd ← gets λ s. s.psd
    now ← deref psd
    modify λ s. record s { written = s.written ++ (now.1.buffer, now.1.len) ∷ [] }
    if failed then modify (λ s. record s { connection_error = true }) else pure tt

  unfoldable pub callback_lws_http : Callback → Action (Unit {0})
  unfolding handle_cloud_response client_writeable
  callback_lws_http (receive wsi text) = handle_cloud_response text wsi
  callback_lws_http (writeable wsi failed) = client_writeable wsi failed
  callback_lws_http client_connection_failed =
      modify λ s. record s { client_connection_error = true }
  callback_lws_http (closed wsi) = pure tt

  unfoldable pub run_callbacks : List Callback → Action (Unit {0})
  unfolding callback_lws_http
  run_callbacks [] = pure tt
  run_callbacks (callback ∷ rest) = do callback_lws_http callback; run_callbacks rest

  -- `lws_service`.
  unfoldable pub lws_service : Action (Unit {0})
  unfolding run_callbacks
  lws_service = do callbacks ← outside l.service; run_callbacks callbacks
