-- ===== src/Msg/Run.antt =====
-- src/msg.c: `msg_start`, `msg_stop` and everything that calls into the file between the two: the
-- node's messages, the driver's reports on a device, and the end of a watch or of a node's channel.
use knot_service_source.Common.{c_string, ℕ, ◌+◌, ◌≡◌, none, some, List, [], ◌∷◌, lookup, take}
use knot_service_source.Env.{Env, Response}
use knot_service_source.Env.Messages.{Bytes}
use knot_service_source.Common.Monad.{ok, pure, gets, modify, ◌>>=◌, ◌>>◌}
use knot_service_source.Msg.State.{ProtoWatch, Channel, State, Action}
use knot_service_source.Msg.Trust.{trust_unref, on_device_watch_destroyed}
use knot_service_source.Msg.Register.{Opdu}
use knot_service_source.Msg.Process.{msg_process}
use knot_service_source.Msg.Changed.{on_device_changed}
use knot_service_source.Msg.Lifetime.{hang_up}

-- A call into src/msg.c. `hung_up` and `watch_destroyed` are the callbacks of a node channel and of a
-- device watch, `device_changed` is the driver's report, by the object that they were set on.
pub data Event : Type 0 where
  request : (sock proto_sock : ℕ) → Bytes → Opdu → (omtu : ℕ) → Event
  device_changed : (watch : ℕ) → Response → Event
  watch_destroyed : (watch : ℕ) → Event
  hung_up : (channel : ℕ) → Event

module _ (e : Env) where
  -- `strncpy` into `owner_uuid`, and an empty `trust_map`.
  unfoldable pub msg_start : Bytes → e.World → State e
  unfolding c_string
  msg_start uuid world = record {
    trust_map = [];
    heap = λ _. none;
    next = 0;
    channels = [];
    watches = [];
    owner_uuid = c_string (take (e.uuid_len + 1) uuid);
    world = world;
  }

  -- `l_hashmap_destroy` with `trust_unref`, on the entries of the table.
  unfoldable pub destroy_entries : List (ℕ × ℕ) → Action e (Unit {0})
  unfolding trust_unref
  destroy_entries [] = pure tt
  destroy_entries ((sock, trust) ∷ rest) = do trust_unref e trust; destroy_entries rest

  -- The pointer to the table still leads to freed memory afterwards, and nothing reads it before
  -- `msg_start` makes a new table: here the table is empty.
  unfoldable pub msg_stop : Action e (Unit {0})
  unfolding destroy_entries
  msg_stop = do
    table ← gets λ s. s.trust_map
    modify λ s. record s { trust_map = [] }
    destroy_entries table

  unfoldable pub handle : Event → Action e (Unit {0})
  unfolding hang_up
  handle (request sock proto_sock ipdu opdu omtu) = do
    msg_process e sock proto_sock ipdu opdu omtu
    pure tt
  handle (device_changed watch json) = on_device_changed e watch json
  handle (watch_destroyed watch) = on_device_watch_destroyed e watch
  handle (hung_up channel) = hang_up e channel

  -- The callback can come: the object that it was set on still exists.
  abbrev pub Live : Event → State e → Type 0
  Live (request sock proto_sock ipdu opdu omtu) s = Unit
  Live (device_changed watch json) s = (w : ProtoWatch) × (lookup watch s.watches ≡ some w)
  Live (watch_destroyed watch) s = (w : ProtoWatch) × (lookup watch s.watches ≡ some w)
  Live (hung_up channel) s = (c : Channel) × (lookup channel s.channels ≡ some c)

  -- The states between two calls, with the world changing by itself in the meantime.
  pub data Reachable : State e → Type 0 where
    started : (uuid : Bytes) (world : e.World) → Reachable (msg_start uuid world)
    handled :
        (event : Event) (s s' : State e)
        → Reachable s
        → Live event s
        → handle event s ≡ ok (tt, s')
        → Reachable s'
    elsewhere :
        (s : State e) (world : e.World) → Reachable s → Reachable (record s { world = world })
