-- ===== src/Http/Examples.antt =====
-- The theorems on src/proto-http.c at concrete inputs: a server whose answers the world chooses.
use knot_service_source.Common.{
  ℕ, ◌+◌, ◌≡◌, ◌↔◌, refl, pos, true, Option, none, some, [], ◌∷◌, inl, if◌then◌else◌, ◌==◌, arith,
}
use knot_service_source.Common.Monad.{ok, fault, dangling, ◌>>=◌}
use knot_service_source.Common.Hoare.{Returns}
use knot_service_source.Env.Messages.{Bytes}
use knot_service_source.Msg.State.{State}
use knot_service_source.Msg.Cloud.{failed, proto_signin}
use knot_service_source.Msg.Examples.Service.{
  service, Json, number, array, object, end, entry, stop, member,
}
use knot_service_source.Http.Curl.{Curl, Transfer}
use knot_service_source.Http.Fetch.{empty}
use knot_service_source.Http.Driver.{Globals, holds, http_signin, http_fetch}
use knot_service_source.Http.Described.{
  StopsOnShortWrite, Described, device_request, http_signin-Described,
}
use knot_service_source.Http.Cloud.{Others, proto_http}
use knot_service_source.Http.Signin.{signin_status_ignored}
use knot_service_source.Http.Watch
use knot_service_source.Http.Watch.{ToFetch, http_async, http_async_stop, create_timeout}
use knot_service_source.Http.Watched.{watch_of, started, to_fetch}
use knot_service_source.Http.Events.{Event, run, Allowed, replay, notices, Reached, probed, step}
use knot_service_source.Http.Refine.{watches-replay, cut_watch_id}

-- One device for the text 9.
abbrev parse : Option Bytes → Option Json
parse none = none
parse (some []) = none
parse (some (code ∷ rest)) =
    if code == 9
    then some (object (member "devices" (array (entry (number (pos 1)) end)) stop))
    else none

-- In world 0 a device, in world 1 the status 500 with a body, otherwise 401 without one.
abbrev reply : ℕ → Transfer
reply w =
    if w == 0
    then record { chunks = (9 ∷ [], true) ∷ []; performed = true; response_code = some 200 }
    else if w == 1
    then record { chunks = (1 ∷ [], true) ∷ []; performed = true; response_code = some 500 }
    else record { chunks = []; performed = true; response_code = some 401 }

abbrev server : Curl
server = record {
  json = record service.json { tokener_parse = parse };
  World = ℕ;
  easy_init = λ w. (true, w);
  perform = λ q w. (reply w, w);
  realloc = λ n w. (true, w);
  free = λ text w. w;
  toupper = λ x. x;
  printf_u = λ n. 48 ∷ [];
  socket = λ w. (inl 3, w);
  connect = λ sock addr port w. (none, w);
  close = λ sock w. w;
  gethostbyname = λ host w. (inl 1, w);
  l_io_new = λ sock w. (some (if w == 7 then 4294967301 else 64 + sock), w);
}

server_stops : StopsOnShortWrite server
unfolding StopsOnShortWrite
server_stops q w p = ground arith

abbrev globals : Globals
globals = record {
  host_addr = 1;
  host_port = 3000;
  host_uri = b'h' ∷ [];
  device_uri = b'd' ∷ [];
  data_uri = b'e' ∷ [];
  timeouts = holds [];
  next_timeout_id = 1;
}

http_signin-Described_example :
    (((http_signin server globals (pos 3) (7 ∷ []) (8 ∷ []) empty 0).0 ≡ pos 0)
        × ((http_signin server globals (pos 3) (7 ∷ []) (8 ∷ []) empty 0).1.text
            ≡ some (5 ∷ 0 ∷ []))
      ↔ Described server (device_request server globals (pos 3) (7 ∷ []) (8 ∷ [])) empty 0 (5 ∷ []))
    × (((http_fetch server globals (pos 3) (7 ∷ []) (8 ∷ []) empty 0).0 ≡ pos 0)
          × ((http_fetch server globals (pos 3) (7 ∷ []) (8 ∷ []) empty 0).1.text
              ≡ some (5 ∷ 0 ∷ []))
        ↔ Described server
            (device_request server globals (pos 3) (7 ∷ []) (8 ∷ []))
            empty
            0
            (5 ∷ []))
http_signin-Described_example =
    http_signin-Described server globals server_stops (pos 3) (7 ∷ []) (8 ∷ []) empty 0 (5 ∷ [])

others : Others server
others = record {
  protocol = service.protocol;
  async = λ sock uuid token w. (1, w);
  async_stop = λ sock id w. (true, w);
  peer_cred = λ sock w. (pos 0, 42);
  write = λ sock msg n w. (pos n, 0, w);
  stack = λ w. none;
}

abbrev signed : ℕ → State (proto_http server globals others)
signed w = record {
  trust_map = [];
  heap = λ _. none;
  next = 0;
  channels = [];
  watches = [];
  owner_uuid = [];
  world = w;
}

-- The status 500 with a body: the credentials are refused.
signin_status_ignored_example :
    proto_signin (proto_http server globals others) true 3 (7 ∷ []) (8 ∷ []) (signed 1)
    ≡ ok (failed others.credential_unauthorized, signed 1)
unfolding others
signin_status_ignored_example =
    signin_status_ignored server globals others server_stops true 3 (7 ∷ []) (8 ∷ []) (signed 1) 500
      refl refl refl refl (omega arith) (omega arith)

abbrev watching : ℕ → Watch.State server
watching w = record {
  globals = globals;
  heap = λ _. none;
  next = 0;
  ios = λ _. none;
  calls = [];
  world = w;
}

cut_watch_id_example :
    (http_async server 3 (7 ∷ []) (8 ∷ []) 1 true >>= http_async_stop server 3) (watching 7)
    ≡ fault dangling
cut_watch_id_example =
    cut_watch_id server [] (watching 7) (probed globals 7 refl) 3 (7 ∷ []) (8 ∷ []) 1 true
      4294967301 refl (omega arith) refl (omega arith)

abbrev one_watch : Watch.State server
one_watch = started server (watching 0) [] (to_fetch 3 (7 ∷ []) (8 ∷ []) 1 true) (some 67) 0

one_watch-Reached : Reached server ((Event.watch 3 (7 ∷ []) (8 ∷ []) 1 true, 67) ∷ []) one_watch
unfolding Allowed http_async create_timeout
one_watch-Reached =
    step (Event.watch 3 (7 ∷ []) (8 ∷ []) 1 true) 67 (probed globals 0 refl)
      (67, refl, refl, omega arith, omega arith) refl

stop-Allowed : Allowed server (Event.stop 3 67) one_watch
unfolding Allowed watch_of
stop-Allowed = (to_fetch 3 (7 ∷ []) (8 ∷ []) 1 true, refl)

watches-replay_example :
    ((id : ℕ)
      → watch_of server one_watch id
        ≡ replay ((Event.watch 3 (7 ∷ []) (8 ∷ []) 1 true, 67) ∷ []) id)
    × Returns
        (λ r s'.
          ((id : ℕ)
            → watch_of server s' id
              ≡ replay
                  ((Event.stop 3 67, r) ∷ (Event.watch 3 (7 ∷ []) (8 ∷ []) 1 true, 67) ∷ [])
                  id)
          × (s'.calls ≡ notices server (Event.stop 3 67) one_watch))
        (run server (Event.stop 3 67) one_watch)
watches-replay_example =
    watches-replay server ((Event.watch 3 (7 ∷ []) (8 ∷ []) 1 true, 67) ∷ []) one_watch
      one_watch-Reached (Event.stop 3 67) stop-Allowed
