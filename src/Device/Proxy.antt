-- ===== src/Device/Proxy.antt =====
-- src/proxy.c: the table of devices, kept by what ELL reports of the radios' objects.
use knot_service_source.Common.{
  ℕ, ◌%◌, ◌^◌, Bool, true, false, ◌&&◌, not, Option, none, some, List, [], ◌∷◌, if◌then◌else◌, ◌==◌,
  lookup, erase,
}
use knot_service_source.Common.Monad.{pure, modify, gets, ◌>>=◌, ◌>>◌}
use knot_service_source.Env.Messages.{Bytes}
use knot_service_source.Device.Bus.{Bus}
use knot_service_source.Device.Objects.{
  Action, device_create, device_destroy, device_set_name, device_set_paired,
}

-- `strcmp(a, b) == 0`
abbrev pub same_text : Bytes → Bytes → Bool
same_text [] [] = true
same_text [] (y ∷ ys) = false
same_text (x ∷ xs) [] = false
same_text (x ∷ xs) (y ∷ ys) = (x == y) && same_text xs ys

-- "br.org.cesar.knot.Device1", "Name", "Paired" and "device:unknown".
abbrev pub device1 : Bytes
device1 =
    98 ∷ 114 ∷ 46 ∷ 111 ∷ 114 ∷ 103 ∷ 46 ∷ 99 ∷ 101 ∷ 115 ∷ 97 ∷ 114 ∷ 46 ∷ 107 ∷ 110 ∷ 111 ∷ 116
    ∷ 46 ∷ 68 ∷ 101 ∷ 118 ∷ 105 ∷ 99 ∷ 101 ∷ 49 ∷ []

abbrev pub name_text : Bytes
name_text = 78 ∷ 97 ∷ 109 ∷ 101 ∷ []

abbrev pub paired_text : Bytes
paired_text = 80 ∷ 97 ∷ 105 ∷ 114 ∷ 101 ∷ 100 ∷ []

abbrev pub device_unknown : Bytes
device_unknown =
    100 ∷ 101 ∷ 118 ∷ 105 ∷ 99 ∷ 101 ∷ 58 ∷ 117 ∷ 110 ∷ 107 ∷ 110 ∷ 111 ∷ 119 ∷ 110 ∷ []

module _ (b : Bus) where
  -- `proxy->interface` is compared with the interface of the proxy.
  abbrev pub is_watched : ℕ → Bool
  is_watched ellproxy = same_text (b.interface_of ellproxy) device1

  -- The low half of the proxy's address stands for the device's id.
  unfoldable pub added : ℕ → Action b (Unit {0})
  unfolding device_create
  added ellproxy = if not (is_watched ellproxy) then pure tt else do
    device ← device_create b ellproxy (ellproxy % 2 ^ 32) device_unknown
    modify λ s. record s { device_list = (ellproxy, device) ∷ s.device_list }

  -- `l_hashmap_remove`, and the device if there was one.
  unfoldable pub removed : ℕ → Action b (Unit {0})
  unfolding device_destroy
  removed ellproxy = if not (is_watched ellproxy) then pure tt else do
    found ← gets λ s. lookup ellproxy s.device_list
    modify λ s. record s { device_list = erase ellproxy s.device_list }
    elim found [
      | some (some device) ↦ device_destroy b (some device)
      | some none ↦ pure tt
      | none ↦ pure tt
    ]

  -- The device's new name, if the message has one.
  abbrev pub change_name : ℕ → ℕ → Action b (Unit {0})
  change_name device msg = elim (b.get_string msg) [
    | some name ↦ do device_set_name b device (some name); pure tt
    | none ↦ pure tt
  ]

  abbrev pub change_paired : ℕ → ℕ → Action b (Unit {0})
  change_paired device msg = elim (b.get_boolean msg) [
    | some paired ↦ do device_set_paired b device paired; pure tt
    | none ↦ pure tt
  ]

  -- What is done with the device of a proxy, if it has one.
  abbrev pub with_device : ℕ → (ℕ → Action b (Unit {0})) → Action b (Unit {0})
  with_device ellproxy change = do
    found ← gets λ s. lookup ellproxy s.device_list
    elim found [ some (some device) ↦ change device | some none ↦ pure tt | none ↦ pure tt ]

  unfoldable pub property_changed : ℕ → Bytes → ℕ → Action b (Unit {0})
  unfolding device_set_name device_set_paired
  property_changed ellproxy propname msg =
      if not (is_watched ellproxy)
      then pure tt
      else if same_text name_text propname
      then with_device ellproxy (λ device. change_name device msg)
      else if same_text paired_text propname
      then with_device ellproxy (λ device. change_paired device msg)
      else pure tt

  -- `l_hashmap_destroy` with `device_destroy` on each value.
  unfoldable pub destroy_devices : List (ℕ × Option ℕ) → Action b (Unit {0})
  unfolding device_destroy
  destroy_devices [] = pure tt
  destroy_devices ((ellproxy, device) ∷ rest) = do device_destroy b device; destroy_devices rest

  -- `watch_remove` and `device_stop` change nothing that is modelled.
  unfoldable pub proxy_stop : Action b (Unit {0})
  unfolding destroy_devices
  proxy_stop = do
    table ← gets λ s. s.device_list
    modify λ s. record s { device_list = [] }
    destroy_devices table
