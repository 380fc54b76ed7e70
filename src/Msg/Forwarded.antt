-- ===== src/Msg/Forwarded.antt =====
-- src/msg.c: what `on_device_changed` sends to the node, and the end of a node's connection.
use knot_service_source.Common.{
  ℕ, ◌≡◌, refl, ap, ◌∙◌, true, false, none, some, List, [], ◌++◌, map, lookup,
}
use knot_service_source.Common.Queue.{Queue, entries}
use knot_service_source.Env.{Env, Response}
use knot_service_source.Env.Messages.{
  MsgConfig, MsgData, MsgItem, NodeMsg, config_msg, data_msg, item_msg,
}
use knot_service_source.Common.Monad.{ok, ◌>>=◌}
use knot_service_source.Common.Hoare.{Holds, ok->>=}
use knot_service_source.Msg.State.{Config, State, Trust, write_at}
use knot_service_source.Msg.Trust.{trust_map_get}
use knot_service_source.Msg.Config.{queue_concat, config_is_valid, truthy, get_changed_config}
use knot_service_source.Msg.Configured.{queue_concat-append}
use knot_service_source.Msg.Parse.{parse_device_setdata, parse_device_getdata, parse_device_config}
use knot_service_source.Msg.Changed.{
  each, retype, all_messages, msg_getdata, msg_setdata, msg_config, config_received,
  update_msg_data_header, update_msg_item_header, forward, send_all,
}
use knot_service_source.Msg.Lifetime.{on_node_channel_disconnected}
use knot_service_source.Msg.Lifetime.HangUp.{Unmapped, on_node_channel_disconnected-Holds}
use knot_service_source.Msg.Run.{Reachable}
use knot_service_source.Msg.Safety.{Reachable-Inv}

module _ {A B : Type 0} where
  entries-retype : (f : A → B) (q : Queue A) → entries (retype f q) ≡ map f (entries q)
  entries-retype f none = refl
  entries-retype f (some xs) = refl

  -- Where the first queue exists.
  concat_some :
      (xs : List B) (f : A → B) (q : Queue A)
      → queue_concat (some xs) (retype f q) ≡ some (xs ++ map f (entries q))
  concat_some xs f q =
      queue_concat-append (some xs) (retype f q) ∙ ap (λ ys. some (xs ++ ys)) (entries-retype f q)

entries-each : {A : Type 0} (f : A → A) (q : Queue A) → entries (each f q) ≡ map f (entries q)
entries-each f none = refl
entries-each f (some xs) = refl

module _ (e : Env) where
  all_messages-entries :
      (configs : Queue (MsgConfig e.Val)) (setdata : Queue (MsgData e.Val))
      (getdata : Queue MsgItem)
      → entries (all_messages e configs setdata getdata)
        ≡ map config_msg (entries configs)
          ++ map data_msg (entries setdata)
          ++ map item_msg (entries getdata)
  all_messages-entries configs setdata getdata =
      rw (concat_some {B = NodeMsg e.Val} [] config_msg configs) (
        rw (concat_some {B = NodeMsg e.Val} (map config_msg (entries configs)) data_msg setdata) (
          rw
            (concat_some {B = NodeMsg e.Val}
              (map config_msg (entries configs) ++ map data_msg (entries setdata)) item_msg getdata)
            refl))

  -- What the service sends to a node whose trust has the configurations `current`, for a report of the
  -- cloud.
  abbrev pub expected : Queue (Config e.Val) → Response → List (NodeMsg e.Val)
  expected current json =
      map config_msg (entries (get_changed_config e current (parse_device_config e json)))
      ++ map data_msg (map (update_msg_data_header e) (entries (parse_device_setdata e json)))
      ++ map item_msg (map (update_msg_item_header e) (entries (parse_device_getdata e json)))

  -- The three lists for a socket that has a trust, from the configurations to send.
  forward-send_all :
      (sock a : ℕ) (json : Response) (configs : Queue (MsgConfig e.Val)) (s s' : State e)
      → msg_config e sock json s ≡ ok (configs, s')
      → lookup sock s'.trust_map ≡ some a
      → forward e sock json s
        ≡ send_all e sock
            (map config_msg (entries configs)
              ++ map data_msg
                  (map (update_msg_data_header e) (entries (parse_device_setdata e json)))
              ++ map item_msg
                  (map (update_msg_item_header e) (entries (parse_device_getdata e json))))
            s'
  unfolding forward msg_setdata msg_getdata trust_map_get
  forward-send_all sock a json configs s s' p h =
      let setdata = each (update_msg_data_header e) (parse_device_setdata e json) in
      let getdata = each (update_msg_item_header e) (parse_device_getdata e json) in
      ok->>= (msg_config e sock json)
        (λ c. msg_setdata e sock json >>= λ d.
          msg_getdata e sock json >>= λ g. send_all e sock (entries (all_messages e c d g)))
        configs s s' p
      ∙ ok->>= (msg_setdata e sock json)
          (λ d.
            msg_getdata e sock json >>= λ g. send_all e sock (entries (all_messages e configs d g)))
          setdata s' s' (rw (h, msg_setdata, ◌>>=◌) refl)
      ∙ ok->>= (msg_getdata e sock json)
          (λ g. send_all e sock (entries (all_messages e configs setdata g))) getdata s' s'
          (rw (h, msg_getdata, ◌>>=◌) refl)
      ∙ ap (λ l. send_all e sock l s') (lists json configs)
    where
      lists :
          (json : Response) (configs : Queue (MsgConfig e.Val))
          → entries (
              all_messages e configs
                (each (update_msg_data_header e) (parse_device_setdata e json))
                (each (update_msg_item_header e) (parse_device_getdata e json)))
            ≡ map config_msg (entries configs)
              ++ map data_msg
                  (map (update_msg_data_header e) (entries (parse_device_setdata e json)))
              ++ map item_msg
                  (map (update_msg_item_header e) (entries (parse_device_getdata e json)))
      lists json configs =
          all_messages-entries configs
            (each (update_msg_data_header e) (parse_device_setdata e json))
            (each (update_msg_item_header e) (parse_device_getdata e json))
          ∙ ap (λ (x, y). map config_msg (entries configs) ++ map data_msg x ++ map item_msg y)
              (λ i. (
                entries-each (update_msg_data_header e) (parse_device_setdata e json) i,
                entries-each (update_msg_item_header e) (parse_device_getdata e json) i,
              ))

  -- A report of the cloud with valid configurations, on a device whose socket has a trust: the trust
  -- takes the configurations over, and the node is sent the changed ones, then the values to set, then
  -- the values asked for, each list whole and in its own order, with the headers of those messages.
  pub forward_lem :
      (sock a : ℕ) (json : Response) (t : Trust e.Val) (s : State e)
      → lookup sock s.trust_map ≡ some a
      → s.heap a ≡ some t
      → truthy (config_is_valid e (parse_device_config e json)) ≡ false
      → forward e sock json s
        ≡ send_all e sock
            (expected t.config json)
            (write_at e a (some (record t { config = parse_device_config e json })) s)
  unfolding msg_config config_received trust_map_get
  forward_lem sock a json t s h p v =
      forward-send_all sock a json (get_changed_config e t.config (parse_device_config e json)) s
        (write_at e a (some (record t { config = parse_device_config e json })) s)
        (rw (h, v, msg_config, ◌>>=◌) (rw (p, config_received, ◌>>=◌) (rw (p, ◌>>=◌) refl))) h

  -- A report of the cloud whose configurations are not valid leaves the trusts as they are: no
  -- configuration is sent, and the values to set and the values asked for still are.
  pub forward_invalid :
      (sock a : ℕ) (json : Response) (s : State e)
      → lookup sock s.trust_map ≡ some a
      → truthy (config_is_valid e (parse_device_config e json)) ≡ true
      → forward e sock json s
        ≡ send_all e sock
            (map data_msg (map (update_msg_data_header e) (entries (parse_device_setdata e json)))
              ++ map item_msg
                  (map (update_msg_item_header e) (entries (parse_device_getdata e json))))
            s
  unfolding msg_config trust_map_get
  forward_invalid sock a json s h v =
      forward-send_all sock a json none s s (rw (h, v, msg_config, ◌>>=◌) refl) h

-- The handler of a node that hangs up uses no freed trust, keeps the invariant of the objects, and
-- leaves the socket without a trust in `trust_map`, whether or not the registration was taken back and
-- whatever the cloud answers.
pub hang_up_unmaps :
    (e : Env) (sock : ℕ) (s : State e)
    → Reachable e s
    → Holds (λ _ s'. Unmapped e sock s s') (on_node_channel_disconnected e sock s)
hang_up_unmaps e sock s r = on_node_channel_disconnected-Holds e sock s (Reachable-Inv e s r)
