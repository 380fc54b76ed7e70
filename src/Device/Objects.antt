-- ===== src/Device/Objects.antt =====
-- src/device.c: a device, its D-Bus object and the method "Pair".
use knot_service_source.Common.{
  ℕ, suc, Bool, true, false, Option, none, some, List, ◌∷◌, if◌then◌else◌, ◌==◌, without,
}
use knot_service_source.Common.Monad.{
  M, ok, pure, modify, gets, or_fault, ◌>>=◌, ◌>>◌, dangling, null_pointer,
}
use knot_service_source.Env.Messages.{Bytes}
use knot_service_source.Device.Bus.{
  Bus, device_interface, properties, Message, name_signal, paired_signal, method_return, busy_error,
}

-- `struct knot_device`.
pub record Device : Type 0 where
  pub id : ℕ
  pub name : Bytes
  pub object : Bytes
  pub online : Bool
  pub paired : Bool
  pub registered : Bool
  -- The client's call that waits for an answer.
  pub msg : Option ℕ
  pub proxy : ℕ

abbrev pub same_bool : Bool → Bool → Bool
same_bool true c = c
same_bool false true = false
same_bool false false = true

module _ (b : Bus) where
  -- `device_list` maps a proxy to its device, or to NULL. `pending` holds the devices of the calls of
  -- "Pair" that the radio has not answered yet.
  pub record State : Type 0 where
    pub heap : ℕ → Option Device
    pub next : ℕ
    pub device_list : List (ℕ × Option ℕ)
    pub pending : List ℕ
    pub world : b.World

  -- A call of src/device.c or src/proxy.c.
  abbrev pub Action : Type 0 → Type 0
  Action A = M State A

  abbrev pub deref : ℕ → Action Device
  deref a s = or_fault (s.heap a) dangling s

  -- Writes `cell` at an address; `none` frees it.
  abbrev pub write_at : ℕ → Option Device → State → State
  write_at a cell s = record s { heap = λ c. if c == a then cell else s.heap c }

  abbrev pub outside : {A : Type 0} → (b.World → A × b.World) → Action A
  outside f s = let (x, w) = f s.world in ok (x, record s { world = w })

  abbrev pub effect : (b.World → b.World) → Action (Unit {0})
  effect f = outside (λ w. (tt, f w))

  abbrev pub device_free : ℕ → Action (Unit {0})
  device_free device = do deref device; modify (write_at device none)

  -- The client that waits is answered.
  abbrev pub answer_waiting : ℕ → Device → Action (Unit {0})
  answer_waiting device t = do
    msg ← or_fault t.msg null_pointer
    outside (b.send (method_return msg))
    modify (write_at device (some (record t { msg = none })))

  -- The reply of the radio: an error leaves the client's call as it is.
  unfoldable pub pair_reply : ℕ → Bool → Action (Unit {0})
  pair_reply device is_error = do
    modify (λ s. record s { pending = without device s.pending })
    t ← deref device
    if is_error then pure tt else answer_waiting device t

  -- The client's call waits, and the radio is asked to pair.
  abbrev pub ask_radio : ℕ → ℕ → Device → Action (Option Message)
  ask_radio device msg t = do
    modify (write_at device (some (record t { msg = some msg })))
    modify (λ s. record s { pending = device ∷ s.pending })
    effect (b.call_pair t.proxy device)
    pure none

  -- The answer that goes back at once, if there is one.
  unfoldable pub method_pair : ℕ → ℕ → Action (Option Message)
  method_pair device msg = do
    t ← deref device
    if t.paired then pure (some (method_return msg)) else (elim t.msg [
      | some waiting ↦ pure (some (busy_error msg))
      | none ↦ ask_radio device msg t
    ])

  abbrev pub new_device : ℕ → ℕ → Bytes → Device
  new_device proxy id name = record {
    id = id;
    name = name;
    object = b.object_path id;
    online = false;
    paired = false;
    registered = false;
    msg = none;
    proxy = proxy;
  }

  -- The device's interfaces on the bus: both of them, or none.
  abbrev pub add_properties : ℕ → Bytes → Action Bool
  add_properties device object = do
    added ← outside (b.add_interface object properties device)
    if added then pure true else do effect (b.remove_interface object device_interface); pure false

  abbrev pub add_interfaces : ℕ → Bytes → Action Bool
  add_interfaces device object = do
    added ← outside (b.add_interface object device_interface device)
    if added then add_properties device object else pure false

  -- NULL where the object cannot be made.
  unfoldable pub device_create : ℕ → ℕ → Bytes → Action (Option ℕ)
  device_create proxy id name = do
    device ← gets λ s. s.next
    modify (λ s. record (write_at device (some (new_device proxy id name)) s) { next = suc device })
    added ← add_interfaces device (b.object_path id)
    if added then pure (some device) else do device_free device; pure none

  unfoldable pub device_destroy : Option ℕ → Action (Unit {0})
  device_destroy none s = or_fault none null_pointer s
  device_destroy (some device) s =
      (do
        t ← deref device
        effect (b.remove_interface t.object device_interface)
        effect (b.remove_interface t.object properties)
        device_free device)
        s

  -- A signal has been sent, or not: the device is changed, or not.
  abbrev pub change_if_sent : ℕ → Device → Bool → Action Bool
  change_if_sent device t true = do modify (write_at device (some t)); pure true
  change_if_sent device t false = pure false

  unfoldable pub device_set_name : ℕ → Option Bytes → Action Bool
  device_set_name device none = pure false
  device_set_name device (some name) = do
    t ← deref device
    sent ← outside (b.send (name_signal t.object name))
    change_if_sent device (record t { name = name }) sent

  abbrev pub signal_paired : ℕ → Bool → Device → Action Bool
  signal_paired device paired t = do
    sent ← outside (b.send (paired_signal t.object paired))
    change_if_sent device (record t { paired = paired }) sent

  unfoldable pub device_set_paired : ℕ → Bool → Action Bool
  device_set_paired device paired = do
    t ← deref device
    if same_bool t.paired paired then pure false else signal_paired device paired t
