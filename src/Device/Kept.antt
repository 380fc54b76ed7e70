-- ===== src/Device/Kept.antt =====
-- The invariant of the devices, over the operations of src/device.c.
use knot_service_source.Common.{
  ℕ, ◌<◌, ◌≡◌, refl, ap, ◌∙◌, Bool, true, false, Option, none, some, ◌∷◌, lookup, erase, occurs,
  without, occurs-without, arith, Option-cases, Bool-cases, inl, inr,
}
use knot_service_source.Common.Hoare.{Returns}
use knot_service_source.Env.Messages.{Bytes}
use knot_service_source.Device.Bus.{
  Bus, device_interface, properties, name_signal, paired_signal, method_return,
}
use knot_service_source.Device.Objects.{
  Device, State, Action, write_at, answer_waiting, pair_reply, method_pair, device_destroy,
  change_if_sent, device_set_name, device_set_paired, same_bool,
}
use knot_service_source.Device.Invariant.{
  has_msg, Inv, world-Inv, settled-Inv, change-Inv, ask-Inv, gone-Inv,
}

module _ (b : Bus) where
  abbrev pub Kept : {A : Type 0} → Action b A → State b → Type 0
  Kept m s = Returns (λ _ s'. Inv b s') (m s)

  pub listed_alive :
      (s : State b) (p a : ℕ)
      → Inv b s
      → lookup p s.device_list ≡ some (some a)
      → (t : Device) × (s.heap a ≡ some t) × (t.proxy ≡ p)
  listed_alive s p a v h = elim (Option-cases (s.heap a)) [
    | inl q ↦ absurd (ground (arith, v.listed a p))
    | inr (t, q) ↦ (t, q, ground (arith, v.listed a p))
  ]

  -- The answer to a client that waits.
  answer_waiting-Kept :
      (a m : ℕ) (t : Device) (s : State b)
      → s.heap a ≡ some t
      → t.msg ≡ some m
      → occurs a s.pending ≡ 0
      → Inv b s
      → Kept (answer_waiting b a t) s
  unfolding Returns
  answer_waiting-Kept a m t s p q idle v =
      let w = (b.send (method_return m) s.world).1 in
      rw (q, Returns)
        (change-Inv b (record s { world = w }) (world-Inv b s v w) a t p (record t { msg = none })
          refl (λ h. absurd (omega arith)))

  pub pair_reply-Kept :
      (a m : ℕ) (t : Device) (is_error : Bool) (s : State b)
      → s.heap a ≡ some t
      → t.msg ≡ some m
      → Inv b s
      → Kept (pair_reply b a is_error) s
  unfolding Returns pair_reply
  pair_reply-Kept a m t true s p q v = rw (p, pair_reply, Returns) (settled-Inv b s v a)
  pair_reply-Kept a m t false s p q v =
      rw (p, pair_reply, Returns)
        (answer_waiting-Kept a m t (record s { pending = without a s.pending }) p q
          (ground (arith, occurs-without a a s.pending (v.once a), v.once a)) (settled-Inv b s v a))

  pub method_pair-Kept :
      (a msg : ℕ) (t : Device) (s : State b)
      → s.heap a ≡ some t
      → Inv b s
      → Kept (method_pair b a msg) s
  unfolding Returns method_pair
  method_pair-Kept a msg t s p v = elim (Bool-cases t.paired) [
    | inl q ↦ rw (p, q, method_pair, Returns) v
    | inr q ↦ elim (Option-cases t.msg) [
      | inl r ↦
          rw (p, q, r, method_pair, Returns)
            (world-Inv b (asked s) (ask-Inv b s v a t p msg r) (b.call_pair t.proxy a s.world))
      | inr (m, r) ↦ rw (p, q, r, method_pair, Returns) v
    ]
  ]
    where
      asked : State b → State b
      asked u = record (write_at b a (some (record t { msg = some msg })) u) {
        pending = a ∷ u.pending;
      }

  -- A device whose client still waits, if it waited.
  still-waits :
      (s : State b) (a : ℕ) (t : Device)
      → Inv b s
      → s.heap a ≡ some t
      → 0 < occurs a s.pending
      → has_msg t.msg ≡ true
  still-waits s a t v p h = ground (arith, v.waiting a)

  change_if_sent-Kept :
      (a : ℕ) (t u : Device) (sent : Bool) (s : State b)
      → s.heap a ≡ some t
      → u.proxy ≡ t.proxy
      → u.msg ≡ t.msg
      → Inv b s
      → Kept (change_if_sent b a u sent) s
  unfolding Returns
  change_if_sent-Kept a t u true s p same kept v =
      change-Inv b s v a t p u same (λ h. ap has_msg kept ∙ still-waits s a t v p h)
  change_if_sent-Kept a t u false s p same kept v = v

  pub device_set_name-Kept :
      (a : ℕ) (name : Option Bytes) (t : Device) (s : State b)
      → s.heap a ≡ some t
      → Inv b s
      → Kept (device_set_name b a name) s
  unfolding Returns device_set_name
  device_set_name-Kept a none t s p v = v
  device_set_name-Kept a (some name) t s p v =
      let (sent, w) = b.send (name_signal t.object name) s.world in
      rw (p, device_set_name, Returns)
        (change_if_sent-Kept a t (record t { name = name }) sent (record s { world = w }) p refl
          refl (world-Inv b s v w))

  pub device_set_paired-Kept :
      (a : ℕ) (paired : Bool) (t : Device) (s : State b)
      → s.heap a ≡ some t
      → Inv b s
      → Kept (device_set_paired b a paired) s
  unfolding Returns device_set_paired
  device_set_paired-Kept a paired t s p v =
      let (sent, w) = b.send (paired_signal t.object paired) s.world in
      elim (Bool-cases (same_bool t.paired paired)) [
        | inl q ↦ rw (p, q, device_set_paired, Returns) v
        | inr q ↦
            rw (p, q, device_set_paired, Returns)
              (change_if_sent-Kept a t (record t { paired = paired }) sent (record s { world = w })
                p refl refl (world-Inv b s v w))
      ]

  -- The device of an entry is destroyed, and the entry is gone.
  pub device_destroy-Kept :
      (p a : ℕ) (s : State b)
      → lookup p s.device_list ≡ some (some a)
      → Inv b s
      → Kept (device_destroy b (some a)) (record s { device_list = erase p s.device_list })
  unfolding Returns device_destroy
  device_destroy-Kept p a s h v =
      let (t, q, r) = listed_alive s p a v h in
      let s1 = record (write_at b a none s) { device_list = erase p s.device_list } in
      rw (q, device_destroy, Returns, q)
        (world-Inv b s1 (gone-Inv b s v a t q p h) (
          b.remove_interface t.object properties
            (b.remove_interface t.object device_interface s.world)))
