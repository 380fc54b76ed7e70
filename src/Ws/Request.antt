-- ===== src/Ws/Request.antt =====
-- src/proto-ws.c: the requests to the cloud.
use knot_service_source.Common.{
  ℕ, zero, suc, ℤ, pos, negsuc, Bool, true, false, ◌||◌, Option, none, some, [], ◌∷◌, ◌++◌, length,
  take, lookup, if◌then◌else◌,
}
use knot_service_source.Common.Monad.{pure, modify, gets, ◌>>=◌, ◌>>◌}
use knot_service_source.Env.Messages.{Bytes}
use knot_service_source.Env.Raw.{JsonRaw}
use knot_service_source.Ws.Table.{queue_at}
use knot_service_source.Ws.Service.{Service}
use knot_service_source.Ws.Receive.{
  Psd, State, Action, deref, assign, outside, handle_response, lws_service,
}

-- The prefixes of a message, 420 and 42.
abbrev pub operation_prefix : Bytes
operation_prefix = b'4' ∷ b'2' ∷ b'0' ∷ []

abbrev pub message_prefix : Bytes
message_prefix = b'4' ∷ b'2' ∷ []

-- `psd->len` is what `snprintf` returns, the length before the cut at MAX_PAYLOAD.
unfoldable pub print_message : Bytes → Bytes → Psd → Psd
print_message prefix text t = record t {
  buffer = take 4095 (prefix ++ text);
  len = length (prefix ++ text);
}

module _ (l : Service) where
  -- The result and the buffer; nothing where the fuel is at its end, while the code still waits.
  abbrev pub Reply : Type 0
  Reply = Option (ℤ × JsonRaw)

  -- `while (!done) lws_service()`, with fuel; whether it has ended.
  unfoldable pub wait : (State l → Bool) → ℕ → Action l Bool
  unfolding lws_service
  wait done zero = gets done
  wait done (suc fuel) =
      let rest = wait done fuel in
      do stop ← gets done; if stop then pure true else (lws_service l >> rest)

  abbrev pub answered : State l → Bool
  answered s = s.got_response || s.connection_error

  abbrev pub signed_in : State l → Bool
  signed_in s = s.ready || s.connection_error

  -- Writes the message and asks for the callback that sends it.
  unfoldable pub send : ℕ → ℕ → Bytes → Bytes → Action l (Unit {0})
  unfolding print_message
  send psd ws prefix text = do
    t ← deref l (some psd)
    assign l psd (print_message prefix text t.1)
    outside l λ w. (tt, l.on_writable ws w)

  abbrev pub reset_response : Reply → Action l Reply
  reset_response reply = do
    modify λ s. record s { got_response = false; connection_error = false }
    pure reply

  -- The session of a socket and its websocket.
  abbrev pub with_session : ℕ → JsonRaw → (ℕ → Action l Reply) → Action l Reply
  with_session sock json body = do
    found ← gets λ s. lookup sock s.wstable
    modify λ s. record s { psd = found }
    elim found [ none ↦ pure (some (negsuc 21, json)) | some psd ↦ body psd ]

  abbrev pub websocket : ℕ → Action l (Option ℕ)
  websocket psd = do t ← deref l (some psd); gets λ s. queue_at s.wsis t.1.index

  -- `[name, jobj]` as text.
  abbrev pub request_text : Option l.Json → Option l.Json → Bytes
  request_text name jobj = l.to_json_string (l.array_add (l.array_add l.new_array name) jobj)

  -- Sends a message and waits for a reply or an error; then `finish`.
  unfoldable pub exchange :
      ℕ → ℕ → Bytes → Bytes → (State l → Bool) → ℕ → Action l Reply → Action l Reply
  unfolding send wait
  exchange psd ws prefix text done fuel finish = do
    send psd ws prefix text
    ended ← wait done fuel
    if ended then finish else pure none

  -- What `ws_mknode` and `ws_rmnode` do with the reply: the error is set and overwritten.
  unfoldable pub reply_or_stale : JsonRaw → Action l Reply
  unfolding handle_response
  reply_or_stale json = do reply ← handle_response l json; reset_response (some reply)

  abbrev pub is_none : Option l.Json → Bool
  is_none none = true
  is_none (some j) = false

  -- No object or no array: -ENOMEM.
  abbrev pub with_objects : JsonRaw → Action l Reply → Action l Reply
  with_objects json body =
      if is_none l.new_object || is_none l.new_array then pure (some (negsuc 11, json)) else body

  abbrev pub uuid_object : Option l.Json → Bytes → Option l.Json
  uuid_object jobj uuid = l.object_add jobj "uuid" (l.new_string uuid)

  abbrev pub credentials_object : Option l.Json → Bytes → Bytes → Option l.Json
  credentials_object jobj uuid token =
      l.object_add (uuid_object jobj uuid) "token" (l.new_string token)

  -- Sends the request of the session, or -EBADF without a websocket.
  unfoldable pub request :
      ℕ
      → Bytes
      → Bytes
      → (State l → Bool)
      → ℕ
      → JsonRaw
      → (Reply → Action l Reply)
      → Action l Reply
      → Action l Reply
  unfolding exchange
  request psd prefix text done fuel json leave finish = do
    ws ← websocket psd
    elim ws [
      | none ↦ leave (some (negsuc 8, json))
      | some ws ↦ exchange psd ws prefix text done fuel finish
    ]

  -- -ECONNREFUSED after an error, else the reply.
  unfoldable pub reply_or_refused : JsonRaw → Action l Reply
  unfolding handle_response
  reply_or_refused json = do
    refused ← gets λ s. s.connection_error
    if refused
        then reset_response (some (negsuc 110, json))
        else (handle_response l json >>= λ reply. reset_response (some reply))

  unfoldable pub ws_device : ℕ → ℕ → Bytes → JsonRaw → Action l Reply
  unfolding request reply_or_refused
  ws_device fuel sock uuid json = with_session sock json λ psd. with_objects json (
      request psd operation_prefix
        (request_text (l.new_string device) (uuid_object l.new_object uuid)) answered fuel json
        reset_response (reply_or_refused json))
    where
      device : Bytes
      device = b'd' ∷ b'e' ∷ b'v' ∷ b'i' ∷ b'c' ∷ b'e' ∷ []

  abbrev pub reset_ready : Reply → Action l Reply
  reset_ready reply = do
    modify λ s. record s { ready = false; connection_error = false }
    pure reply

  -- A sign-in that is still in the second request leaves the flags as they are.
  abbrev pub leave_signin : Reply → Action l Reply
  leave_signin none = pure none
  leave_signin (some reply) = reset_ready (some reply)

  -- The device is asked for once the cloud has accepted the credentials.
  unfoldable pub ask_device : ℕ → ℕ → Bytes → JsonRaw → Action l Reply
  unfolding ws_device
  ask_device fuel sock uuid json = do
    refused ← gets λ s. s.connection_error
    if refused
        then reset_ready (some (negsuc 110, json))
        else (ws_device fuel sock uuid json >>= leave_signin)

  unfoldable pub ws_signin : ℕ → ℕ → Bytes → Bytes → JsonRaw → Action l Reply
  unfolding request ask_device
  ws_signin fuel sock uuid token json = with_session sock json λ psd. with_objects json (
      request psd operation_prefix
        (request_text (l.new_string identity) (credentials_object l.new_object uuid token))
        signed_in fuel json reset_ready (ask_device fuel sock uuid json))
    where
      identity : Bytes
      identity = b'i' ∷ b'd' ∷ b'e' ∷ b'n' ∷ b't' ∷ b'i' ∷ b't' ∷ b'y' ∷ []

  unfoldable pub ws_rmnode : ℕ → ℕ → Bytes → Bytes → JsonRaw → Action l Reply
  unfolding request reply_or_stale
  ws_rmnode fuel sock uuid token json = with_session sock json λ psd. with_objects json (
      request psd operation_prefix
        (request_text (l.new_string unregister) (credentials_object l.new_object uuid token))
        answered fuel json reset_response (reply_or_stale json))
    where
      unregister : Bytes
      unregister = b'u' ∷ b'n' ∷ b'r' ∷ b'e' ∷ b'g' ∷ b'i' ∷ b's' ∷ b't' ∷ b'e' ∷ b'r' ∷ []

  -- A request whose text is no JSON is -EINVAL.
  abbrev pub with_parsed : JsonRaw → Bytes → (l.Json → Action l Reply) → Action l Reply
  with_parsed json jreq body = elim (l.tokener_parse (some jreq)) [
    | none ↦ pure (some (negsuc 21, json))
    | some jobj ↦ body jobj
  ]

  unfoldable pub ws_mknode : ℕ → ℕ → Bytes → JsonRaw → Action l Reply
  unfolding request reply_or_stale
  ws_mknode fuel sock device_json json = with_session sock json λ psd.
      with_parsed json device_json λ jobj.
        request psd operation_prefix (request_text (l.new_string register) (some jobj)) answered
          fuel json reset_response (reply_or_stale json)
    where
      register : Bytes
      register = b'r' ∷ b'e' ∷ b'g' ∷ b'i' ∷ b's' ∷ b't' ∷ b'e' ∷ b'r' ∷ []

  -- An update is not waited for: the context is served once.
  unfoldable pub serve_once : ℕ → ℕ → Bytes → JsonRaw → Action l Reply
  unfolding send lws_service
  serve_once psd ws text json = do
    send psd ws message_prefix text
    lws_service l
    refused ← gets λ s. s.connection_error
    reset_response (some (if refused then negsuc 110 else pos 0, json))

  unfoldable pub ws_update : ℕ → Bytes → Bytes → JsonRaw → Action l Reply
  unfolding serve_once
  ws_update sock uuid jreq json = with_session sock json λ psd. with_parsed json jreq λ jobj. do
    ws ← websocket psd
    elim ws [
      | none ↦ reset_response (some (negsuc 8, json))
      | some ws ↦
          serve_once psd ws (request_text (l.new_string update) (uuid_object (some jobj) uuid)) json
    ]
    where
      update : Bytes
      update = b'u' ∷ b'p' ∷ b'd' ∷ b'a' ∷ b't' ∷ b'e' ∷ []

  -- Data is answered with 0 however the wait has ended.
  unfoldable pub ws_data : ℕ → ℕ → Bytes → Bytes → Bytes → JsonRaw → Action l Reply
  unfolding request
  ws_data fuel sock uuid token jreq json = with_session sock json λ psd.
      with_parsed json jreq λ jobj.
        request psd operation_prefix
          (request_text (l.new_string name) (credentials_object (some jobj) uuid token)) answered
          fuel json reset_response (reset_response (some (pos 0, json)))
    where
      name : Bytes
      name = b'd' ∷ b'a' ∷ b't' ∷ b'a' ∷ []
