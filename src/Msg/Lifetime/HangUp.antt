-- ===== src/Msg/Lifetime/HangUp.antt =====
-- src/msg.c: the callbacks of a node channel, and the invariant of the objects.
use knot_service_source.Common.{
  ℕ, ◌≡◌, refl, ◌∙◌, subst, sym, inl, inr, Bool, true, false, Option, none, some, [], ◌∷◌, lookup,
  erase, Option-cases, Bool-cases, arith, count_by_pos, ◌==◌,
}
use knot_service_source.Env.{Env}
use knot_service_source.Common.Monad.{pure, modify, ◌>>=◌, ◌>>◌}
use knot_service_source.Common.Hoare.{Holds, Holds->>=, Holds-weaken}
use knot_service_source.Msg.Hoare.{OnlyWorld}
use knot_service_source.Msg.State.{State, Trust, Channel, Action, deref}
use knot_service_source.Msg.Trust.{trust_map_get, trust_map_remove, trust_unref}
use knot_service_source.Msg.Cloud.{proto_rmnode}
use knot_service_source.Msg.Quiet.{proto_rmnode-IsQuiet}
use knot_service_source.Msg.Register.{msg_unregister, unregister_answered}
use knot_service_source.Msg.Lifetime.{roll_back, stop_watch, on_node_channel_disconnected, hang_up}
use knot_service_source.Msg.Lifetime.Invariant.{Inv, watch_of, channel_trust}
use knot_service_source.Msg.Lifetime.Steps.{alive, world-Inv, unref-Inv, channel_erase-Inv}
use knot_service_source.Msg.Lifetime.Trusts.{
  pure-Holds, mapped_alive, trust_map_remove-Holds, remove_device_watch-Holds, target-some,
}

module _ (e : Env) where
  -- The invariant, with the same node channels as in `s`.
  abbrev SameChannels : State e → State e → Type 0
  SameChannels s s' = Inv e [] none s' × (s'.channels ≡ s.channels)

  unregister_answered-Holds :
      (sock result : ℕ) (s : State e)
      → Inv e [] none s
      → Holds (λ _ s'. SameChannels s s') (unregister_answered e sock result s)
  unfolding unregister_answered
  unregister_answered-Holds sock result s v = elim (Bool-cases (result == e.success)) [
    | inl h ↦
        rw (h, unregister_answered)
          (Holds->>= _ _ (trust_map_remove e sock) (λ _. pure e.success) s
            (trust_map_remove-Holds e [] none sock s v)
            λ _ s' (i, m, c). pure-Holds e _ e.success s' (i, c))
    | inr h ↦ rw (h, unregister_answered) (pure-Holds e _ result s (v, refl))
  ]

  proto_rmnode-Holds :
      (proto : ℕ) (t : Trust e.Val) (s : State e)
      → Inv e [] none s
      → Holds (λ _ s'. SameChannels s s') (proto_rmnode e proto t.uuid t.token s)
  proto_rmnode-Holds proto t s v =
      Holds-weaken (λ _ s'. OnlyWorld e s s') (λ _ s'. SameChannels s s')
        (proto_rmnode e proto t.uuid t.token s) (proto_rmnode-IsQuiet e proto t.uuid t.token s)
        λ _ s' q. subst (SameChannels s) (sym q) (world-Inv e [] none s s'.world v, refl)

  -- What keeps the channels of `s'` keeps those of `s`.
  same_since :
      {A : Type 0} (s s' : State e) (m : Action e A)
      → s'.channels ≡ s.channels
      → Holds (λ _ u. SameChannels s' u) (m s')
      → Holds (λ _ u. SameChannels s u) (m s')
  same_since s s' m c h =
      Holds-weaken (λ _ u. SameChannels s' u) (λ _ u. SameChannels s u) (m s') h
        λ _ u (j, d). (j, d ∙ c)

  msg_unregister-Holds :
      (sock proto : ℕ) (s : State e)
      → Inv e [] none s
      → Holds (λ _ s'. SameChannels s s') (msg_unregister e sock proto s)
  unfolding Holds msg_unregister trust_map_get
  msg_unregister-Holds sock proto s v = elim (Option-cases (lookup sock s.trust_map)) [
    | inl h ↦ rw (h, msg_unregister, Holds) (v, refl)
    | inr (a, h) ↦
        let (t, p) = mapped_alive e [] none s sock a v h in
        rw (h, p, msg_unregister, Holds)
          (Holds->>= (λ _ s'. SameChannels s s') (λ _ s'. SameChannels s s')
            (proto_rmnode e proto t.uuid t.token) (unregister_answered e sock) s
            (proto_rmnode-Holds proto t s v)
            λ result s' (i, c).
              same_since s s' (unregister_answered e sock result) c
                (unregister_answered-Holds sock result s' i))
  ]

  roll_back-Holds :
      (rollback : Bool) (sock proto : ℕ) (s : State e)
      → Inv e [] none s
      → Holds (λ _ s'. SameChannels s s') (roll_back e rollback sock proto s)
  unfolding roll_back
  roll_back-Holds false sock proto s v = pure-Holds e _ tt s (v, refl)
  roll_back-Holds true sock proto s v =
      Holds->>= _ _ (msg_unregister e sock proto) (λ _. pure tt) s
        (msg_unregister-Holds sock proto s v) λ _ s' k. pure-Holds e _ tt s' k

  stop_watch-Holds :
      (a : ℕ) (o : Option ℕ) (s : State e)
      → Inv e [] none s
      → watch_of (s.heap a) ≡ o
      → Holds (λ _ s'. SameChannels s s') (stop_watch e o s)
  unfolding stop_watch
  stop_watch-Holds a none s v p = pure-Holds e _ tt s (v, refl)
  stop_watch-Holds a (some h) s v p =
      let (w, found, same) = target-some e h a s.watches (v.watched a h p) in
      Holds-weaken _ _ _ (remove_device_watch-Holds e [] h w s found v) λ _ s' (i, m, c). (i, c)

  -- The trust that a socket maps to has a channel of that socket.
  channel_alive :
      (sock a : ℕ) (s s1 : State e)
      → Inv e [] none s
      → lookup sock s.trust_map ≡ some a
      → SameChannels s s1
      → (t : Trust e.Val) × (s1.heap a ≡ some t)
  channel_alive sock a s s1 v h (i, c) = elim (v.channelled sock a h) [
    | inl p ↦ absurd (cc)
    | inr (k, p) ↦ alive e [] none s1 a i (
        ground (
          arith,
          count_by_pos channel_trust k (record { node_sock = sock; trust = a }) s1.channels,
        ))
  ]

  -- The socket is unmapped, and the channels are as they were.
  abbrev pub Unmapped : ℕ → State e → State e → Type 0
  Unmapped sock s s' =
      Inv e [] none s' × (lookup sock s'.trust_map ≡ none) × (s'.channels ≡ s.channels)

  remove-Holds :
      (sock : ℕ) (s s' : State e)
      → s'.channels ≡ s.channels
      → Inv e [] none s'
      → Holds (λ _ u. Unmapped sock s u) (trust_map_remove e sock s')
  remove-Holds sock s s' same v =
      Holds-weaken
        (λ _ u. Inv e [] none u × (lookup sock u.trust_map ≡ none) × (u.channels ≡ s'.channels))
        (λ _ u. Unmapped sock s u) (trust_map_remove e sock s')
        (trust_map_remove-Holds e [] none sock s' v) λ _ u (i, m, c). (i, m, c ∙ same)

  stop_and_remove :
      (sock a : ℕ) (s0 s1 : State e)
      → Inv e [] none s0
      → lookup sock s0.trust_map ≡ some a
      → SameChannels s0 s1
      → Holds
          (λ _ s'. Unmapped sock s0 s')
          ((deref e a >>= λ t'. stop_watch e t'.proto_watch >> trust_map_remove e sock) s1)
  unfolding Holds
  stop_and_remove sock a s0 s1 v0 h (i, c) =
      let (t', p') = channel_alive sock a s0 s1 v0 h (i, c) in
      rw (p', Holds)
        (Holds->>= (λ _ s'. SameChannels s0 s') (λ _ s'. Unmapped sock s0 s')
          (stop_watch e t'.proto_watch) (λ _. trust_map_remove e sock) s1
          (same_since s0 s1 (stop_watch e t'.proto_watch) c
            (stop_watch-Holds a t'.proto_watch s1 i (rw p')))
          λ _ s2 (j, d). remove-Holds sock s0 s2 d j)

  pub on_node_channel_disconnected-Holds :
      (sock : ℕ) (s : State e)
      → Inv e [] none s
      → Holds (λ _ s'. Unmapped sock s s') (on_node_channel_disconnected e sock s)
  unfolding Holds on_node_channel_disconnected
  on_node_channel_disconnected-Holds sock s v = elim (Option-cases (lookup sock s.trust_map)) [
    | inl h ↦ rw (h, on_node_channel_disconnected, Holds) (v, h, refl)
    | inr (a, h) ↦
        let (t, p) = mapped_alive e [] none s sock a v h in
        rw (h, p, on_node_channel_disconnected, Holds)
          (Holds->>= (λ _ s'. SameChannels s s') (λ _ s'. Unmapped sock s s')
            (roll_back e t.rollback sock t.proto_sock)
            (λ _. deref e a >>= λ t'. stop_watch e t'.proto_watch >> trust_map_remove e sock) s
            (roll_back-Holds t.rollback sock t.proto_sock s v)
            λ _ s1 k. stop_and_remove sock a s s1 v h k)
  ]

  -- Dropping a pointer and then the channel that it stood in is dropping the channel first.
  unref_then_erase_channel :
      (a c : ℕ) (s : State e)
      → Inv e (a ∷ []) none (record s { channels = erase c s.channels })
      → Holds
          (λ _ s'. Inv e [] none s')
          ((trust_unref e a >> modify λ s1. record s1 { channels = erase c s1.channels }) s)
  unfolding Holds trust_unref
  unref_then_erase_channel a c s v =
      let (t, p) = alive e (a ∷ []) none _ a v (ground arith) in
      rw (p, trust_unref, Holds) (unref-Inv e [] none _ a t p v)

  pub hang_up-Holds :
      (c : ℕ) (ch : Channel) (s : State e)
      → lookup c s.channels ≡ some ch
      → Inv e [] none s
      → Holds (λ _ s'. Inv e [] none s') (hang_up e c s)
  unfolding Holds hang_up
  hang_up-Holds c ch s found v =
      rw (found, hang_up, Holds)
        (Holds->>= (λ _ s'. Unmapped ch.node_sock s s') (λ _ s'. Inv e [] none s')
          (on_node_channel_disconnected e ch.node_sock)
          (λ _. trust_unref e ch.trust >> modify λ s1. record s1 { channels = erase c s1.channels })
          s (on_node_channel_disconnected-Holds ch.node_sock s v)
          λ _ s1 (i, m, same).
            unref_then_erase_channel ch.trust c s1
              (channel_erase-Inv e [] none s1 c ch (rw same found) m i))
