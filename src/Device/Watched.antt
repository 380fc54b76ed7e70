-- ===== src/Device/Watched.antt =====
-- The invariant of the devices, over the operations of src/proxy.c.
use knot_service_source.Common.{
  ℕ, suc, ◌%◌, ◌^◌, ◌≡◌, sym, ap, ◌∙◌, true, Option, none, some, List, [], ◌∷◌, lookup, erase,
  erase_missing, subst, All, ◌==◌, arith, Option-cases, Bool-cases, inl, inr,
}
use knot_service_source.Common.Monad.{pure, ◌>>◌}
use knot_service_source.Common.Hoare.{Returns, Returns->>=, Returns-weaken}
use knot_service_source.Env.Messages.{Bytes}
use knot_service_source.Device.Bus.{Bus, device_interface, properties}
use knot_service_source.Device.Objects.{
  Device, State, Action, write_at, new_device, device_create, device_destroy, device_set_name,
  device_set_paired,
}
use knot_service_source.Device.Proxy.{
  is_watched, device_unknown, added, removed, change_name, change_paired, with_device,
  property_changed, destroy_devices, proxy_stop, same_text, name_text, paired_text,
}
use knot_service_source.Device.Invariant.{
  Inv, world-Inv, gone-Inv, empty-Inv, created-Inv, failed-Inv,
}
use knot_service_source.Device.Kept.{
  Kept, listed_alive, device_set_name-Kept, device_set_paired-Kept, device_destroy-Kept,
}

module _ (b : Bus) where
  pub removed-Kept : (p : ℕ) (s : State b) → Inv b s → Kept b (removed b p) s
  unfolding Returns removed
  removed-Kept p s v = elim (Bool-cases (is_watched b p)) [
    | inr q ↦ rw (q, removed, Returns) v
    | inl q ↦ elim (Option-cases (lookup p s.device_list)) [
      | inl h ↦
          rw (q, h, removed, Returns)
            (subst (λ m. Inv b (record s { device_list = m }))
              (sym (erase_missing p s.device_list h)) v)
      | inr (found, h) ↦ elim (Option-cases found) [
        | inl e ↦ rw (q, h, e, removed, Returns) (empty-Inv b s v p (h ∙ ap some e))
        | inr (a, e) ↦
            rw (q, h, e, removed, Returns) (device_destroy-Kept b p a s (h ∙ ap some e) v)
      ]
    ]
  ]

  -- The device's address goes to the table if the object is made; else the device is freed.
  pub added-Kept :
      (p : ℕ) (s : State b) → lookup p s.device_list ≡ none → Inv b s → Kept b (added b p) s
  unfolding Returns added device_create
  added-Kept p s h v =
      let t = new_device b p (p % 2 ^ 32) device_unknown in
      let here : (s.next == s.next) ≡ true = ground arith in
      let object = b.object_path (p % 2 ^ 32) in
      let (first, w) = b.add_interface object device_interface s.next s.world in
      let (second, w') = b.add_interface object properties s.next w in
      let s1 = record (write_at b s.next (some t) s) {
        next = suc s.next;
        device_list = (p, some s.next) ∷ s.device_list;
      } in
      let s2 = record (write_at b s.next none (write_at b s.next (some t) s)) {
        next = suc s.next;
        device_list = (p, none) ∷ s.device_list;
      } in
      elim (Bool-cases (is_watched b p)) [
        | inr q ↦ rw (q, added, Returns) v
        | inl q ↦ elim (Bool-cases first) [
          | inr e ↦ rw (q, e, added, here, Returns) (world-Inv b s2 (failed-Inv b s v p t h) w)
          | inl e ↦ elim (Bool-cases second) [
            | inr e' ↦
                rw (q, e, e', added, here, Returns)
                  (world-Inv b s2 (failed-Inv b s v p t h)
                    (b.remove_interface object device_interface w'))
            | inl e' ↦ rw (q, e, e', added, Returns) (world-Inv b s1 (created-Inv b s v t h) w')
          ]
        ]
      ]

  with_device-Kept :
      (p : ℕ) (change : ℕ → Action b (Unit {0})) (s : State b)
      → Inv b s
      → ((a : ℕ) (t : Device) → s.heap a ≡ some t → Kept b (change a) s)
      → Kept b (with_device b p change) s
  unfolding Returns
  with_device-Kept p change s v k = elim (Option-cases (lookup p s.device_list)) [
    | inl h ↦ rw (h, Returns) v
    | inr (found, h) ↦ elim (Option-cases found) [
      | inl e ↦ rw (h, e, Returns) v
      | inr (a, e) ↦
          let (t, q, r) = listed_alive b s p a v (h ∙ ap some e) in rw (h, e, Returns) (k a t q)
    ]
  ]

  -- A call whose result is dropped.
  pub dropped-Kept :
      {A : Type 0} (m : Action b A) (s : State b) → Kept b m s → Kept b (m >> pure tt) s
  unfolding Returns
  dropped-Kept m s k =
      Returns->>= (λ _ s'. Inv b s') (λ _ s'. Inv b s') m (λ _. pure tt) s k λ _ s' v. v

  change_name-Kept :
      (a msg : ℕ) (t : Device) (s : State b)
      → s.heap a ≡ some t
      → Inv b s
      → Kept b (change_name b a msg) s
  unfolding Returns
  change_name-Kept a msg t s p v = elim (Option-cases (b.get_string msg)) [
    | inl h ↦ rw (h, Returns) v
    | inr (name, h) ↦
        rw (h, Returns)
          (dropped-Kept (device_set_name b a (some name)) s
            (device_set_name-Kept b a (some name) t s p v))
  ]

  change_paired-Kept :
      (a msg : ℕ) (t : Device) (s : State b)
      → s.heap a ≡ some t
      → Inv b s
      → Kept b (change_paired b a msg) s
  unfolding Returns
  change_paired-Kept a msg t s p v = elim (Option-cases (b.get_boolean msg)) [
    | inl h ↦ rw (h, Returns) v
    | inr (paired, h) ↦
        rw (h, Returns)
          (dropped-Kept (device_set_paired b a paired) s
            (device_set_paired-Kept b a paired t s p v))
  ]

  pub property_changed-Kept :
      (p : ℕ) (propname : Bytes) (msg : ℕ) (s : State b)
      → Inv b s
      → Kept b (property_changed b p propname msg) s
  unfolding Returns property_changed
  property_changed-Kept p propname msg s v = elim (Bool-cases (is_watched b p)) [
    | inr q ↦ rw (q, property_changed, Returns) v
    | inl q ↦ elim (Bool-cases (same_text name_text propname)) [
      | inl e ↦
          rw (q, e, property_changed, Returns)
            (with_device-Kept p (λ a. change_name b a msg) s v
              λ a t h. change_name-Kept a msg t s h v)
      | inr e ↦ elim (Bool-cases (same_text paired_text propname)) [
        | inl e' ↦
            rw (q, e, e', property_changed, Returns)
              (with_device-Kept p (λ a. change_paired b a msg) s v
                λ a t h. change_paired-Kept a msg t s h v)
        | inr e' ↦ rw (q, e, e', property_changed, Returns) v
      ]
    ]
  ]

  -- Every entry of the table has a device.
  abbrev pub Whole : List (ℕ × Option ℕ) → Type 0
  Whole table = All (λ e. (a : ℕ) × (e.1 ≡ some a)) table

  erase-head : (p : ℕ) (x : Option ℕ) (rest : List (ℕ × Option ℕ)) → erase p ((p, x) ∷ rest) ≡ rest
  erase-head p x rest = ground arith

  first-destroyed :
      (p a : ℕ) (rest : List (ℕ × Option ℕ)) (s : State b)
      → Inv b (record s { device_list = (p, some a) ∷ rest })
      → Returns (λ _ s'. Inv b (record s' { device_list = rest })) (device_destroy b (some a) s)
  unfolding Returns device_destroy
  first-destroyed p a rest s v =
      let s0 = record s { device_list = (p, some a) ∷ rest } in
      let at_p : lookup p s0.device_list ≡ some (some a) = ground arith in
      let (t, q, r) = listed_alive b s0 p a v at_p in
      let s1 = record (write_at b a none s) { device_list = rest } in
      rw (q, device_destroy, Returns, q)
        (world-Inv b s1
          (subst (λ l. Inv b (record (write_at b a none s) { device_list = l }))
            (erase-head p (some a) rest) (gone-Inv b s0 v a t q p at_p))
          (b.remove_interface t.object properties
            (b.remove_interface t.object device_interface s.world)))

  -- `l_hashmap_destroy` over the entries that are left.
  pub destroy_devices-Kept :
      (table : List (ℕ × Option ℕ)) (s : State b)
      → Whole table
      → Inv b (record s { device_list = table })
      → Returns (λ _ s'. Inv b (record s' { device_list = [] })) (destroy_devices b table s)
  unfolding Returns destroy_devices
  destroy_devices-Kept [] s w v = v
  destroy_devices-Kept ((p, device) ∷ rest) s ((a, e), w) v =
      rw (e, destroy_devices)
        (Returns->>= (λ _ s'. Inv b (record s' { device_list = rest }))
          (λ _ s'. Inv b (record s' { device_list = [] })) (device_destroy b (some a))
          (λ _. destroy_devices b rest) s
          (first-destroyed p a rest s
            (subst (λ x. Inv b (record s { device_list = (p, x) ∷ rest })) e v))
          λ _ s' v'. destroy_devices-Kept rest s' w v')

  -- Where every entry has a device, the shutdown destroys them all.
  pub proxy_stop-Kept :
      (s : State b)
      → Whole s.device_list
      → Inv b s
      → Returns (λ _ s'. (a : ℕ) → s'.heap a ≡ none) (proxy_stop b s)
  unfolding Returns proxy_stop
  proxy_stop-Kept s w v =
      Returns-weaken (λ _ s'. Inv b (record s' { device_list = [] }))
        (λ _ s'. (a : ℕ) → s'.heap a ≡ none)
        (destroy_devices b s.device_list (record s { device_list = [] }))
        (destroy_devices-Kept s.device_list (record s { device_list = [] }) w v)
        λ _ s' v' a. elim (Option-cases (s'.heap a)) [
          | inl p ↦ p
          | inr (t, p) ↦ absurd (ground (arith, v'.owned a t.proxy))
        ]
