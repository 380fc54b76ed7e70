-- ===== src/Device/Run.antt =====
-- src/device.c and src/proxy.c: what ELL calls, in any order.
use knot_service_source.Common.{ℕ, ◌<◌, ◌≡◌, Bool, none, some, [], lookup, occurs}
use knot_service_source.Common.Monad.{ok, pure, ◌>>◌}
use knot_service_source.Env.Messages.{Bytes}
use knot_service_source.Device.Bus.{Bus}
use knot_service_source.Device.Objects.{Device, State, Action, pair_reply, method_pair}
use knot_service_source.Device.Proxy.{added, removed, property_changed}

-- A radio's object appears, vanishes or changes; a client calls "Pair"; the radio replies to it.
pub data Event : Type 0 where
  appeared vanished : (ellproxy : ℕ) → Event
  changed : (ellproxy : ℕ) → Bytes → (msg : ℕ) → Event
  pair_called : (device msg : ℕ) → Event
  pair_replied : (device : ℕ) → (is_error : Bool) → Event

module _ (b : Bus) where
  abbrev pub initial : b.World → State b
  initial world = record {
    heap = λ _. none;
    next = 0;
    device_list = [];
    pending = [];
    world = world;
  }

  unfoldable pub handle : Event → Action b (Unit {0})
  unfolding added removed property_changed method_pair pair_reply
  handle (appeared ellproxy) = added b ellproxy
  handle (vanished ellproxy) = removed b ellproxy
  handle (changed ellproxy propname msg) = property_changed b ellproxy propname msg
  handle (pair_called device msg) = do method_pair b device msg; pure tt
  handle (pair_replied device is_error) = pair_reply b device is_error

  -- The event can come: ELL reports each proxy once, and a device's method only while its object stands
  -- on the bus; it answers each call once.
  abbrev pub Live : Event → State b → Type 0
  Live (appeared ellproxy) s = lookup ellproxy s.device_list ≡ none
  Live (vanished ellproxy) s = Unit
  Live (changed ellproxy propname msg) s = Unit
  Live (pair_called device msg) s = (t : Device) × (s.heap device ≡ some t)
  Live (pair_replied device is_error) s =
      (t : Device) × (s.heap device ≡ some t) × (0 < occurs device s.pending)

  -- The states between two events.
  pub data Reachable : State b → Type 0 where
    started : (world : b.World) → Reachable (initial world)
    handled :
        (event : Event) (s s' : State b)
        → Reachable s
        → Live event s
        → handle event s ≡ ok (tt, s')
        → Reachable s'
    elsewhere :
        (s : State b) (world : b.World) → Reachable s → Reachable (record s { world = world })
