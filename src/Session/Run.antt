-- ===== src/Session/Run.antt =====
-- src/session.c: the calls of the file, `session_create` and `session_destroy_all`, and the handlers that
-- ELL's main loop calls, in any order.
use knot_service_source.Common.{ℕ, ◌<◌, ◌≡◌, true, false, none, some, [], lookup, occurs}
use knot_service_source.Common.Monad.{ok, pure, ◌>>◌}
use knot_service_source.Session.Driver.{Driver, Lawful}
use knot_service_source.Session.State.{State, Io, Action}
use knot_service_source.Session.Channels.{end_node_channel, end_proto_channel}
use knot_service_source.Session.Node.{
  on_node_channel_destroy_timeout, on_node_channel_data, session_create, session_destroy_all,
}

-- `accepted` is a new node's socket; the others name the channel, or are the timeout of one.
pub data Event : Type 0 where
  accepted : (client_socket : ℕ) → Event
  node_data node_hung_up cloud_hung_up timed_out : (channel : ℕ) → Event
  shut_down : Event

module _ (d : Driver) where
  -- The file's static variables before the first call.
  abbrev pub initial : d.World → State d
  initial world = record {
    heap = λ _. none;
    next = 0;
    node_channels = [];
    proto_channels = [];
    session_list = none;
    destroying = false;
    timeouts = [];
    world = world;
  }

  unfoldable pub handle : Event → Action d (Unit {0})
  unfolding end_node_channel end_proto_channel on_node_channel_destroy_timeout on_node_channel_data
      session_create session_destroy_all
  handle (accepted client_socket) = do session_create d client_socket; pure tt
  handle (node_data channel) = do on_node_channel_data d channel; pure tt
  handle (node_hung_up channel) = end_node_channel d true channel
  handle (cloud_hung_up channel) = end_proto_channel d channel
  handle (timed_out channel) = on_node_channel_destroy_timeout d channel
  handle shut_down = session_destroy_all d

  -- The event can come, and a timeout comes while its channel exists.
  abbrev pub Live : Event → State d → Type 0
  Live (accepted client_socket) s = Unit
  Live (node_data channel) s = (io : Io) × (lookup channel s.node_channels ≡ some io)
  Live (node_hung_up channel) s = (io : Io) × (lookup channel s.node_channels ≡ some io)
  Live (cloud_hung_up channel) s = (io : Io) × (lookup channel s.proto_channels ≡ some io)
  Live (timed_out channel) s =
      (io : Io) × (lookup channel s.node_channels ≡ some io) × (0 < occurs channel s.timeouts)
  Live shut_down s = Unit

-- The events that do not call `on_data`, without the shutdown.
abbrev pub IsInternal : Event → Type 0
IsInternal (accepted client_socket) = Unit
IsInternal (node_data channel) = ⊥
IsInternal (node_hung_up channel) = Unit
IsInternal (cloud_hung_up channel) = Unit
IsInternal (timed_out channel) = Unit
IsInternal shut_down = ⊥

-- The states between two events. The world changes by itself in the meantime, as its own rules allow.
pub data Reachable (d : Driver) (l : Lawful d) : State d → Type 0 where
  started : (world : d.World) → l.Valid world → Reachable d l (initial d world)
  handled :
      (event : Event) (s s' : State d)
      → Reachable d l s
      → Live d event s
      → handle d event s ≡ ok (tt, s')
      → Reachable d l s'
  elsewhere :
      (s : State d) (world : d.World)
      → Reachable d l s
      → l.Valid world
      → Reachable d l (record s { world = world })
