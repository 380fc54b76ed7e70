-- ===== src/Session/Examples.antt =====
-- The theorems on src/session.c at concrete inputs: a radio that fails on socket 9, a cloud whose
-- connection gets descriptor 7.
use knot_service_source.Common.{
  ℕ, ◌≡◌, ◌≢◌, ◌+◌, refl, pos, negsuc, true, false, some, List, [], ◌∷◌, lookup, count_by,
  if◌then◌else◌, ◌==◌,
}
use knot_service_source.Common.Queue.{entries}
use knot_service_source.Common.Monad.{ok, fault, dangling, freed_entry}
use knot_service_source.Common.Hoare.{Holds}
use knot_service_source.Session.Driver.{Driver, Lawful}
use knot_service_source.Session.State.{State}
use knot_service_source.Session.Invariant.{Counted, io_session}
use knot_service_source.Session.Channels.{
  session_new, session_ref, create_proto_channel, proto_connected, connect_proto,
}
use knot_service_source.Session.Node.{create_node_channel, session_connected, session_create}
use knot_service_source.Session.Run.{
  accepted, node_data, node_hung_up, shut_down, initial, handle, Reachable, started, handled,
}
use knot_service_source.Session.Safety.{refs-Counted, events_return, shutdown_reads_freed}
use knot_service_source.Session.Gateway.{
  Radio, gateway, of_session, step, begun, stepped, beginning, gateway_not_dangling,
}
use knot_service_source.Msg.Examples.Service.{service}
use knot_service_source.Msg.Examples.Checks.{room, after}

abbrev bench : Driver
bench = record {
  World = ℕ;
  Reply = List ℕ;
  recv = λ fd w. ((if fd == 9 then negsuc 4 else pos 3, 10 ∷ 0 ∷ 0 ∷ []), w);
  on_data = λ node proto ipdu opdu_size w. ok ((pos 2, 11 ∷ 0 ∷ []), w + 1);
  send = λ fd reply n w. (pos n, w);
  connect = λ w. (pos 7, w);
  close = λ fd w. w;
  disconnects = false;
}

bench-Lawful : Lawful bench
unfolding Holds
bench-Lawful = record {
  Valid = λ _. Unit;
  recv-Valid = λ _ _ _. tt;
  on_data-Valid = λ _ _ _ _ _ _. tt;
  send-Valid = λ _ _ _ _ _. tt;
  connect-Valid = λ _ _. tt;
  close-Valid = λ _ _ _. tt;
}

-- After a node on the socket `fd` has connected: session 0, cloud channel 1, node channel 2.
abbrev connected : ℕ → State bench
unfolding handle session_create session_new session_connected connect_proto proto_connected
    create_proto_channel session_ref create_node_channel
connected fd = after (handle bench (accepted fd) (initial bench 0)) (initial bench 0)

connected_lem : (fd : ℕ) → handle bench (accepted fd) (initial bench 0) ≡ ok (tt, connected fd)
unfolding handle session_create session_new session_connected connect_proto proto_connected
    create_proto_channel session_ref create_node_channel
connected_lem fd = refl

connected-Reachable : (fd : ℕ) → Reachable bench bench-Lawful (connected fd)
unfolding bench-Lawful
connected-Reachable fd =
    handled (accepted fd) (initial bench 0) (connected fd) (started 0 tt) tt (connected_lem fd)

connected-channels :
    (fd : ℕ)
    → (lookup 2 (connected fd).node_channels ≡ some (record { fd = fd; session = 0 }))
      × ((connected fd).destroying ≡ false)
unfolding handle session_create session_new session_connected connect_proto proto_connected
    create_proto_channel session_ref create_node_channel
connected-channels fd = (refl, refl)

refs-Counted_example : Counted ((connected 5).heap 0) (
    count_by io_session 0 (connected 5).node_channels
    + count_by io_session 0 (connected 5).proto_channels)
refs-Counted_example = refs-Counted bench bench-Lawful (connected 5) (connected-Reachable 5) 0

events_return_example :
    (s' : State bench) × (handle bench (node_hung_up 2) (connected 5) ≡ ok (tt, s'))
events_return_example =
    events_return bench bench-Lawful (node_hung_up 2) (connected 5) (connected-Reachable 5) tt
      (record { fd = 5; session = 0 }, (connected-channels 5).0)

connected-listed : (fd : ℕ) → entries (connected fd).session_list ≡ 0 ∷ []
unfolding handle session_create session_new session_connected connect_proto proto_connected
    create_proto_channel session_ref create_node_channel
connected-listed fd = refl

shutdown_reads_freed_example : handle bench shut_down (connected 5) ≡ fault freed_entry
shutdown_reads_freed_example =
    shutdown_reads_freed bench bench-Lawful (connected 5) 0 [] (connected-Reachable 5)
      (connected-listed 5)

abbrev radio : Radio service
radio = record {
  recv = λ fd w. ((pos 5, 10 ∷ 3 ∷ 9 ∷ 65 ∷ 66 ∷ []), w);
  send = λ fd reply n w. (pos n, w);
  connect = λ w. (pos 7, w);
  close = λ fd w. w;
  opdu = room;
  disconnects = true;
}

-- A node has connected to the gateway, and sends its registration.
abbrev online : State (gateway service radio)
unfolding step beginning handle gateway session_create session_new session_connected connect_proto
    proto_connected create_proto_channel session_ref create_node_channel
online =
    after (step service radio (of_session (accepted 5)) (beginning service radio (1 ∷ []) []))
      (beginning service radio (1 ∷ []) [])

online_lem :
    (step service radio (of_session (accepted 5)) (beginning service radio (1 ∷ []) [])
      ≡ ok (tt, online))
    × (lookup 2 online.node_channels ≡ some (record { fd = 5; session = 0 }))
unfolding step beginning handle gateway session_create session_new session_connected connect_proto
    proto_connected create_proto_channel session_ref create_node_channel
online_lem = (refl, refl)

gateway_not_dangling_example : step service radio (of_session (node_data 2)) online ≢ fault dangling
unfolding beginning
gateway_not_dangling_example =
    gateway_not_dangling service radio (of_session (node_data 2)) online
      (stepped (of_session (accepted 5)) (beginning service radio (1 ∷ []) []) online
        (begun (1 ∷ []) []) tt online_lem.0)
      (record { fd = 5; session = 0 }, online_lem.1)
