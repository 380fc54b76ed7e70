-- ===== src/Ws/Checks.antt =====
-- The theorems on the requests of src/proto-ws.c at concrete inputs.
use knot_service_source.Common.{
  ℕ, zero, suc, sym, subst, All, ◌+◌, ◌-◌, ◌≤◌, ◌≡◌, ◌↔◌, refl, pos, Bool, true, false, none, some,
  List, [], ◌∷◌, ◌++◌, length, is_some, if◌then◌else◌, ◌==◌, bytes_eq, arith,
}
use knot_service_source.Common.Monad.{◌>>◌}
use knot_service_source.Common.Hoare.{Returns}
use knot_service_source.Env.Raw.{JsonRaw}
use knot_service_source.Msg.Examples.Service.{service, Json, text, object, stop, member}
use knot_service_source.Ws.Service.{Service, receive, writeable, closed, at_end, digit}
use knot_service_source.Ws.Receive
use knot_service_source.Ws.Receive.{
  lws_service, run_callbacks, callback_lws_http, handle_cloud_response, packet_received,
  message_received, reply_received, client_writeable, append_text, response_text,
}
use knot_service_source.Ws.Request.{
  operation_prefix, print_message, send, answered, ws_device, ws_mknode,
}
use knot_service_source.Ws.Waited.{Until, now, later}
use knot_service_source.Ws.Returned.{
  Comes, comes, Harmless, world_after, ws_device-Returns, ws_device-waits_on,
}
use knot_service_source.Ws.Answers.{Connected, asked_node, late_reply, stale_reply, message_length}

abbrev empty : JsonRaw
empty = record { text = none; size = 0 }

-- What the text of the earlier reply stands for.
abbrev late : Json
late = object (member "uuid" (text (7 ∷ 7 ∷ [])) (member "token" (text (8 ∷ 8 ∷ [])) stop))

-- A cloud that answers each call of `lws_service` with a reply in world 0, with the end of the connection in
-- world 2, and lets the write fail otherwise.
abbrev cloud : Service
cloud = record {
  json = service.json;
  World = ℕ;
  service = λ w. (
    if w == 0
        then receive 100 (52 ∷ 91 ∷ []) ∷ []
        else if w == 2
        then closed 100 ∷ []
        else writeable 100 true ∷ [],
    w,
  );
  on_writable = λ ws w. w;
  socket_fd = λ wsi. 7;
  seconds = λ w. w;
  scan_digit = λ text. elim text [ [] ↦ at_end | x ∷ rest ↦ digit (x - 48) ];
  realloc = λ n w. (true, w);
}

-- A session that holds an earlier reply, between two requests; `got` tells whether that has just come.
abbrev session : Receive.Psd
session = record {
  index = 0;
  buffer = [];
  len = 0;
  json = some (1 ∷ []);
  watch = none;
  interval = 0;
}

abbrev idle : Bool → ℕ → Receive.State cloud
idle got w = record {
  got_response = got;
  connection_error = false;
  connected = true;
  client_connection_error = false;
  ready = false;
  psd = none;
  heap = λ a. if a == 0 then some session else none;
  wstable = (7, 0) ∷ [];
  wsis = 100 ∷ [];
  written = [];
  watched = [];
  world = w;
}

idle-Connected : (got : Bool) (w : ℕ) → Connected cloud 7 0 session 100 (idle got w)
idle-Connected got w = record {
  found = refl;
  cell = refl;
  listed = refl;
  object = refl;
  array = refl;
}

-- The session's buffer holds the request; then the reply has come.
abbrev printed : Receive.Psd
printed = print_message operation_prefix (5 ∷ []) session

-- The reply is the only thing that the first call delivers.
answer_comes : Comes cloud 7 1 0
unfolding bytes_eq
answer_comes = comes [] (receive 100 (52 ∷ 91 ∷ [])) [] refl tt (refl, refl, refl, refl) tt

ws_device-Returns_example :
    Returns
      (λ r s'. (is_some r ≡ true) × (s'.got_response ≡ false) × (s'.connection_error ≡ false))
      (ws_device cloud 5 7 (9 ∷ []) empty (idle false 0))
ws_device-Returns_example =
    ws_device-Returns cloud 7 0 session 100 5 1 (9 ∷ []) empty (idle false 0)
      (idle-Connected false 0) answer_comes (omega arith)

-- In world 2 the connection is closed.
still : (n : ℕ) → world_after cloud 7 n 2 ≡ 2
still zero = refl
still (suc n) = still n

ws_device-waits_on_example :
    Returns (λ r s'. r ≡ none) (ws_device cloud 1000 7 (9 ∷ []) empty (idle false 2))
ws_device-waits_on_example =
    ws_device-waits_on cloud 7 0 session 100 1000 (9 ∷ []) empty (idle false 2)
      (idle-Connected false 2) refl refl
      λ n. subst (λ w. All (Harmless cloud 7) (cloud.service w).0) (sym (still n)) (tt, tt)

late_reply_example :
    Returns
      (λ r s'.
        (r ≡ some (pos 0, append_text cloud empty (response_text cloud late)))
        × (s'.written ≡ [])
        × (s'.got_response ≡ false))
      (ws_device cloud 5 7 (9 ∷ []) empty (idle true 0))
late_reply_example =
    late_reply cloud 7 0 session 100 5 (9 ∷ []) empty (idle true 0) (idle-Connected true 0) refl
      refl late refl refl

abbrev failed : Receive.State cloud
failed = record (idle false 1) {
  connection_error = true;
  psd = some 0;
  heap = λ a.
      if a == 0
      then some (record printed { interval = 1 })
      else (if a == 0 then some printed else (if a == 0 then some session else none));
  written = (printed.buffer, printed.len) ∷ [];
}

failed-Until :
    Until cloud (answered cloud) 1 (asked_node cloud 0 session 100 late (idle false 1)) failed
unfolding asked_node lws_service run_callbacks callback_lws_http client_writeable
failed-Until = later refl refl (now refl)

stale_reply_example :
    Returns
      (λ r s''.
        (r ≡ some (pos 0, append_text cloud empty (response_text cloud late)))
        × (s''.connection_error ≡ false))
      (ws_mknode cloud 5 7 (1 ∷ []) empty (idle false 1))
unfolding print_message
stale_reply_example =
    stale_reply cloud 7 0 session 100 5 1 (1 ∷ []) empty (idle false 1) failed
      (idle-Connected false 1) late refl failed-Until (omega arith) refl 0
      (record printed { interval = 1 }) late refl refl refl refl

abbrev short : List ℕ
short = 5 ∷ []

-- Session 0 is the current one, and its websocket is the one of socket 7.
message_length_example :
    Returns
      (λ _ s'.
        (buffer : List ℕ) × (len : ℕ) × (s'.written ≡ (buffer, len) ∷ [])
        × ((len ≤ 4096) ↔ (length operation_prefix + length short ≤ 4096))
        × ((buffer ≡ operation_prefix ++ short) ↔ (length operation_prefix + length short ≤ 4095)))
      ((send cloud 0 100 operation_prefix short >> client_writeable cloud 100 true)
        (record (idle false 0) { psd = some 0 }))
message_length_example =
    message_length cloud (record (idle false 0) { psd = some 0 }) 0 100 100 session operation_prefix
      short true refl refl refl
