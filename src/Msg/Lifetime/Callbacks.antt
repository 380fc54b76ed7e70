-- ===== src/Msg/Lifetime/Callbacks.antt =====
-- The invariant of the objects, over the callbacks of the driver in src/msg.c.
use knot_service_source.Common.{
  ℕ, ◌≡◌, refl, inl, inr, none, some, List, [], ◌∷◌, lookup, Option-cases, Bool-cases,
}
use knot_service_source.Common.Queue.{Queue, entries}
use knot_service_source.Env.{Env, Response}
use knot_service_source.Env.Messages.{NodeMsg}
use knot_service_source.Common.Monad.{◌>>=◌}
use knot_service_source.Common.Hoare.{Holds}
use knot_service_source.Msg.State.{State, Config, ProtoWatch}
use knot_service_source.Msg.Trust.{trust_map_get}
use knot_service_source.Msg.Config.{config_is_valid, truthy}
use knot_service_source.Msg.Parse.{parse_device_config}
use knot_service_source.Msg.Changed.{
  fw_push, send_all, msg_config, config_received, msg_setdata, msg_getdata, all_messages, forward,
  on_device_changed,
}
use knot_service_source.Msg.Lifetime.Invariant.{Inv}
use knot_service_source.Msg.Lifetime.Steps.{world-Inv, write-Inv}
use knot_service_source.Msg.Lifetime.Trusts.{mapped_alive}
use knot_service_source.Msg.Lifetime.Handlers.{Keeps, Keeps->>=, pure-Keeps}

module _ (e : Env) where
  fw_push-Keeps : (sock : ℕ) (msg : NodeMsg e.Val) → Keeps e (fw_push e sock msg)
  unfolding Holds fw_push
  fw_push-Keeps sock msg s v = world-Inv e [] none s _ v

  send_all-Keeps : (sock : ℕ) (msgs : List (NodeMsg e.Val)) → Keeps e (send_all e sock msgs)
  unfolding send_all
  send_all-Keeps sock [] = pure-Keeps e tt
  send_all-Keeps sock (msg ∷ rest) =
      Keeps->>= e (fw_push e sock msg) (λ _. send_all e sock rest) (fw_push-Keeps sock msg)
        λ _. send_all-Keeps sock rest

  msg_getdata-Keeps : (sock : ℕ) (r : Response) → Keeps e (msg_getdata e sock r)
  unfolding Holds msg_getdata trust_map_get
  msg_getdata-Keeps sock r s v = elim (Option-cases (lookup sock s.trust_map)) [
    | inl h ↦ rw (h, msg_getdata, Holds) v
    | inr (a, h) ↦ rw (h, msg_getdata, Holds) v
  ]

  msg_setdata-Keeps : (sock : ℕ) (r : Response) → Keeps e (msg_setdata e sock r)
  unfolding Holds msg_setdata trust_map_get
  msg_setdata-Keeps sock r s v = elim (Option-cases (lookup sock s.trust_map)) [
    | inl h ↦ rw (h, msg_setdata, Holds) v
    | inr (a, h) ↦ rw (h, msg_setdata, Holds) v
  ]

  config_received-Keeps :
      (sock a : ℕ) (c : Queue (Config e.Val)) (s : State e)
      → Inv e [] none s
      → lookup sock s.trust_map ≡ some a
      → Holds (λ _ s'. Inv e [] none s') (config_received e a c s)
  unfolding Holds config_received
  config_received-Keeps sock a c s v h =
      let (t, p) = mapped_alive e [] none s sock a v h in
      rw (p, config_received, Holds)
        (rw (p, Holds) (write-Inv e [] none s a t p (record t { config = c }) refl refl v))

  msg_config-Keeps : (sock : ℕ) (r : Response) → Keeps e (msg_config e sock r)
  unfolding Holds msg_config config_received trust_map_get
  msg_config-Keeps sock r s v = elim (Option-cases (lookup sock s.trust_map)) [
    | inl h ↦ rw (h, msg_config, Holds) v
    | inr (a, h) ↦ elim (Bool-cases (truthy (config_is_valid e (parse_device_config e r)))) [
      | inl bad ↦ rw (h, bad, msg_config, Holds) v
      | inr good ↦ rw (h, good, msg_config, Holds) (config_received-Keeps sock a _ s v h)
    ]
  ]

  forward-Keeps : (sock : ℕ) (r : Response) → Keeps e (forward e sock r)
  unfolding forward
  forward-Keeps sock r =
      Keeps->>= e (msg_config e sock r)
        (λ configs. msg_setdata e sock r >>= λ setdata. msg_getdata e sock r >>= λ getdata.
          send_all e sock (entries (all_messages e configs setdata getdata)))
        (msg_config-Keeps sock r)
        λ configs.
          Keeps->>= e (msg_setdata e sock r)
            (λ setdata. msg_getdata e sock r >>= λ getdata.
              send_all e sock (entries (all_messages e configs setdata getdata)))
            (msg_setdata-Keeps sock r)
            λ setdata.
              Keeps->>= e (msg_getdata e sock r)
                (λ getdata. send_all e sock (entries (all_messages e configs setdata getdata)))
                (msg_getdata-Keeps sock r)
                λ getdata. send_all-Keeps sock (entries (all_messages e configs setdata getdata))

  -- A watch that the driver still has.
  pub on_device_changed-Keeps :
      (watch : ℕ) (r : Response) (s : State e) (w : ProtoWatch)
      → lookup watch s.watches ≡ some w
      → Inv e [] none s
      → Holds (λ _ s'. Inv e [] none s') (on_device_changed e watch r s)
  unfolding Holds on_device_changed
  on_device_changed-Keeps watch r s w found v = elim (Option-cases (lookup w.node_io s.channels)) [
    | inl p ↦ rw (found, on_device_changed, ◌>>=◌, p, Holds) tt
    | inr (c, p) ↦ rw (found, on_device_changed, ◌>>=◌, p, Holds) (forward-Keeps c.node_sock r s v)
  ]
