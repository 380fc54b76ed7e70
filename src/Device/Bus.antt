-- ===== src/Device/Bus.antt =====
-- What src/device.c and src/proxy.c take from ELL's D-Bus library. A proxy and a message are numbers,
-- their addresses.
use knot_service_source.Common.{ℕ, Bool, Option}
use knot_service_source.Env.Messages.{Bytes}

-- The interfaces of a device's object: DEVICE_INTERFACE and L_DBUS_INTERFACE_PROPERTIES.
pub data Interface : Type 0 where
  device_interface properties : Interface

-- What is sent without being asked for, by the object's path, and what answers a method call.
pub data Message : Type 0 where
  name_signal : (object : Bytes) (name : Bytes) → Message
  paired_signal : (object : Bytes) (paired : Bool) → Message
  method_return : (call : ℕ) → Message
  busy_error : (call : ℕ) → Message

pub record Bus : Type 1 where
  -- Whatever the operations below read and change.
  pub World : Type 0
  -- `l_dbus_object_add_interface` with the device as the data of the object's methods.
  pub add_interface : Bytes → Interface → ℕ → World → Bool × World
  pub remove_interface : Bytes → Interface → World → World
  -- `l_dbus_send`: whether the result is not 0.
  pub send : Message → World → Bool × World
  -- `l_dbus_proxy_method_call` of "Pair", with the device as the data of `pair_reply`.
  pub call_pair : ℕ → ℕ → World → World
  -- `l_dbus_proxy_get_interface`; the argument of a message, if it has the wanted type.
  pub interface_of : ℕ → Bytes
  pub get_string : ℕ → Option Bytes
  pub get_boolean : ℕ → Option Bool
  -- `l_strdup_printf("/dev_%" PRIu64, id)`.
  pub object_path : ℕ → Bytes
