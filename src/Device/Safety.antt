-- ===== src/Device/Safety.antt =====
-- src/device.c and src/proxy.c: the life of the devices over any sequence of events.
use knot_service_source.Common.{
  ℕ, ◌%◌, ◌^◌, ◌<◌, ◌≡◌, ◌↔◌, refl, true, false, none, some, lookup, occurs, ◌==◌, arith,
  Option-cases, inl, inr,
}
use knot_service_source.Common.Monad.{ok, fault, null_pointer}
use knot_service_source.Common.Hoare.{Returns, Returns-ok, Returns_run}
use knot_service_source.Device.Bus.{Bus, device_interface}
use knot_service_source.Device.Objects.{Device, State, method_pair, device_create, device_destroy}
use knot_service_source.Device.Proxy.{is_watched, added, destroy_devices, proxy_stop}
use knot_service_source.Device.Invariant.{proxy_of, Inv, world-Inv}
use knot_service_source.Device.Kept.{method_pair-Kept, pair_reply-Kept}
use knot_service_source.Device.Watched.{
  Whole, dropped-Kept, added-Kept, removed-Kept, property_changed-Kept, proxy_stop-Kept,
}
use knot_service_source.Device.Run.{
  Event, appeared, vanished, changed, pair_called, pair_replied, handle, Live, Reachable, started,
  handled, elsewhere,
}

module _ (b : Bus) where
  pub waiting_msg :
      (s : State b) (a : ℕ) (t : Device)
      → Inv b s
      → s.heap a ≡ some t
      → 0 < occurs a s.pending
      → (m : ℕ) × (t.msg ≡ some m)
  waiting_msg s a t v p h = elim (Option-cases t.msg) [
    | inl q ↦ absurd (ground (arith, v.waiting a))
    | inr found ↦ found
  ]

  handle-Kept :
      (event : Event) (s : State b)
      → Live b event s
      → Inv b s
      → Returns (λ _ s'. Inv b s') (handle b event s)
  unfolding handle
  handle-Kept (appeared p) s live v = added-Kept b p s live v
  handle-Kept (vanished p) s live v = removed-Kept b p s v
  handle-Kept (changed p propname msg) s live v = property_changed-Kept b p propname msg s v
  handle-Kept (pair_called a msg) s (t, p) v =
      dropped-Kept b (method_pair b a msg) s (method_pair-Kept b a msg t s p v)
  handle-Kept (pair_replied a is_error) s (t, p, h) v =
      let (m, q) = waiting_msg s a t v p h in pair_reply-Kept b a m t is_error s p q v

  pub Reachable-Inv : (s : State b) → Reachable b s → Inv b s
  unfolding handle
  Reachable-Inv _ (started w) = record {
    owned = λ _ _ h. absurd (cc);
    listed = λ _ _ h. absurd (cc);
    fresh = λ _ _. (refl, refl);
    distinct = tt;
    once = λ _. omega arith;
    waiting = λ _ h. absurd (omega arith);
  }
  Reachable-Inv _ (handled event s s' r live p) =
      Returns_run (λ _ s''. Inv b s'') (handle b event s) tt s'
        (handle-Kept event s live (Reachable-Inv s r)) p
  Reachable-Inv _ (elsewhere s w r) = world-Inv b s (Reachable-Inv s r) w

-- Every event that can come runs to its end: no device that has been freed is used, and no answer is
-- made for a call that is not there.
pub devices_return :
    (b : Bus) (event : Event) (s : State b)
    → Reachable b s
    → Live b event s
    → (s' : State b) × (handle b event s ≡ ok (tt, s'))
devices_return b event s r live =
    let (a, s', p, q) =
      Returns-ok (λ _ s'. Inv b s') (handle b event s)
        (handle-Kept b event s live (Reachable-Inv b s r)) in
    (s', p)

-- A device is allocated exactly while the table maps its proxy to it.
pub table_owns :
    (b : Bus) (s : State b)
    → Reachable b s
    → (a p : ℕ) → (proxy_of (s.heap a) ≡ some p) ↔ (lookup p s.device_list ≡ some (some a))
table_owns b s r a p = ((Reachable-Inv b s r).owned a p, (Reachable-Inv b s r).listed a p)

-- Where every proxy in the table has a device, the shutdown returns and has freed every device.
proxy_stop_lem :
    (b : Bus) (s : State b)
    → Reachable b s
    → Whole b s.device_list
    → Returns (λ _ s'. (a : ℕ) → s'.heap a ≡ none) (proxy_stop b s)
proxy_stop_lem b s r w = proxy_stop-Kept b s w (Reachable-Inv b s r)

-- Where the bus refuses the object of a new proxy, a shutdown after it dereferences NULL.
pub stop_after_refusal :
    (b : Bus) (s : State b) (p : ℕ)
    → is_watched b p ≡ true
    → (b.add_interface (b.object_path (p % 2 ^ 32)) device_interface s.next s.world).0 ≡ false
    → Returns (λ _ s'. proxy_stop b s' ≡ fault null_pointer) (handle b (appeared p) s)
unfolding Returns handle added device_create proxy_stop destroy_devices device_destroy
stop_after_refusal b s p watched refused =
    let here : (s.next == s.next) ≡ true = ground arith in rw (watched, refused, here, Returns) refl
