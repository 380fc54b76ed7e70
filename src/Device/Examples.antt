-- ===== src/Device/Examples.antt =====
-- The theorems on src/device.c and src/proxy.c at concrete inputs: a bus that takes every object but
-- that of the proxy 13.
use knot_service_source.Common.{
  ℕ, ◌+◌, ◌≡◌, ◌↔◌, refl, true, false, not, none, some, List, [], ◌∷◌, map, lookup, occurs, ◌==◌,
  arith,
}
use knot_service_source.Common.Monad.{Result, ok, fault, null_pointer}
use knot_service_source.Common.Hoare.{Returns}
use knot_service_source.Device.Bus.{Bus, busy_error}
use knot_service_source.Device.Objects.{Device, State, method_pair, device_create}
use knot_service_source.Device.Proxy.{added, device1, device_unknown, proxy_stop}
use knot_service_source.Device.Invariant.{proxy_of}
use knot_service_source.Device.Watched.{Whole}
use knot_service_source.Device.Run.{
  appeared, pair_called, pair_replied, initial, handle, Reachable, started, handled,
}
use knot_service_source.Device.Safety.{devices_return, table_owns, stop_after_refusal}
use knot_service_source.Device.Pairing.{call_all, failed_pair}

abbrev house : Bus
house = record {
  World = ℕ;
  add_interface =
      λ object interface device w. (elim object [ [] ↦ false | id ∷ rest ↦ not (id == 13) ], w);
  remove_interface = λ object interface w. w;
  send = λ message w. (true, w + 1);
  call_pair = λ proxy device w. w;
  interface_of = λ proxy. device1;
  get_string = λ msg. none;
  get_boolean = λ msg. some true;
  object_path = λ id. id ∷ [];
}

abbrev after : {A S : Type 0} → Result (A × S) → S → S
after (ok (a, s)) default = s
after (fault x) default = default

-- The device of the proxy 5, before and after a client has called "Pair".
abbrev shown : State house
unfolding handle added device_create
shown = after (handle house (appeared 5) (initial house 0)) (initial house 0)

abbrev asked : State house
unfolding handle added device_create method_pair
asked = after (handle house (pair_called 0 21) shown) shown

abbrev radio5 : Device
radio5 = record {
  id = 5;
  name = device_unknown;
  object = 5 ∷ [];
  online = false;
  paired = false;
  registered = false;
  msg = none;
  proxy = 5;
}

shown_lem :
    (handle house (appeared 5) (initial house 0) ≡ ok (tt, shown))
    × (shown.heap 0 ≡ some radio5)
    × (lookup 5 shown.device_list ≡ some (some 0))
unfolding handle added device_create
shown_lem = (refl, refl, refl)

asked_lem :
    (handle house (pair_called 0 21) shown ≡ ok (tt, asked))
    × (asked.heap 0 ≡ some (record radio5 { msg = some 21 }))
    × (occurs 0 asked.pending ≡ 1)
unfolding handle added device_create method_pair
asked_lem = (refl, refl, refl)

shown-Reachable : Reachable house shown
shown-Reachable = handled (appeared 5) (initial house 0) shown (started 0) refl shown_lem.0

asked-Reachable : Reachable house asked
asked-Reachable =
    handled (pair_called 0 21) shown asked shown-Reachable (radio5, shown_lem.1) asked_lem.0

devices_return_example : (s' : State house) × (handle house (pair_called 0 22) asked ≡ ok (tt, s'))
devices_return_example =
    devices_return house (pair_called 0 22) asked asked-Reachable
      (record radio5 { msg = some 21 }, asked_lem.1)

table_owns_example :
    (proxy_of (shown.heap 0) ≡ some 5) ↔ (lookup 5 shown.device_list ≡ some (some 0))
table_owns_example = table_owns house shown shown-Reachable 0 5

shown-Whole : Whole house shown.device_list
unfolding handle added device_create
shown-Whole = ((0, refl), tt)

stop_after_refusal_example :
    Returns (λ _ s'. proxy_stop house s' ≡ fault null_pointer) (handle house (appeared 13) shown)
stop_after_refusal_example = stop_after_refusal house shown 13 refl refl

failed_pair_example :
    Returns
      (λ _ s'.
        (calls : List ℕ)
        → call_all house 0 calls s' ≡ ok (map (λ msg. some (busy_error msg)) calls, s'))
      (handle house (pair_replied 0 true) asked)
failed_pair_example =
    failed_pair house asked 0 (record radio5 { msg = some 21 }) asked-Reachable asked_lem.1 refl
      (omega (arith, asked_lem.2))
