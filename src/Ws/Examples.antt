-- ===== src/Ws/Examples.antt =====
-- The theorems on src/proto-ws.c at concrete inputs: a server that refuses every second connection.
use knot_service_source.Common.{
  ℕ, ◌+◌, ◌%◌, ◌≡◌, refl, pos, none, some, [], ◌∷◌, if◌then◌else◌, ◌==◌,
}
use knot_service_source.Common.Monad.{fault, dangling, ◌>>◌}
use knot_service_source.Common.Hoare.{Returns}
use knot_service_source.Ws.Table.{Lws, State, ws_connect, ws_close, ws_async, timeout_ws}
use knot_service_source.Ws.Places.{slot, probed, lost_connection, watched_close}

-- The world counts the attempts; the websocket of attempt `n` is 100 + n, its descriptor n.
abbrev server : Lws
server = record {
  World = ℕ;
  connect_via_info = λ w. (w + 100, w + 1);
  established = λ w. (w % 2 == 1, w);
  socket_fd = λ ws. ws + 7;
  write_out = λ ws w. w;
  service = λ w. w;
  seconds = λ w. w;
  connection_refused = 110;
}

abbrev empty : ℕ → State server
empty w = record { heap = λ _. none; next = 0; wstable = []; wsis = []; conn_index = 0; world = w }

lost_connection_example :
    Returns
      (λ r s'. (r ≡ pos 109) × (slot server 109 s' ≡ none))
      ((ws_connect server >> ws_connect server) (empty 1))
lost_connection_example =
    lost_connection server (empty 1) 101 102 2 2 3 3 (probed 1) refl refl refl refl refl

-- One connection stands.
abbrev one : State server
one = record (empty 1) {
  heap = λ a. if a == 0 then some (record { index = 0; interval = 0 }) else none;
  next = 1;
  wstable = (107, 0) ∷ [];
  wsis = 100 ∷ [];
  conn_index = 1;
}

watched_close_example :
    Returns
      (λ _ s'. timeout_ws server s' ≡ fault dangling)
      ((ws_async server 107 >> ws_close server 107) one)
watched_close_example =
    watched_close server one 107 0 (record { index = 0; interval = 0 }) refl refl
