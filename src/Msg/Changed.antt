-- ===== src/Msg/Changed.antt =====
-- src/msg.c: `on_device_changed`, which passes what changed in the cloud on to the node.
use knot_service_source.Common.{
  lookup, ℕ, zero, suc, ◌+◌, ℤ, pos, negsuc, none, some, List, [], ◌∷◌, map, if◌then◌else◌, is_neg,
}
use knot_service_source.Common.Queue.{Queue, entries}
use knot_service_source.Env.{Env, Response}
use knot_service_source.Env.Messages.{
  MsgConfig, MsgData, MsgItem, NodeMsg, config_msg, data_msg, item_msg, header_of,
}
use knot_service_source.Common.Monad.{or_fault, freed_channel, pure, ◌>>=◌, ◌>>◌}
use knot_service_source.Msg.State.{Config, Action, deref, assign, outside}
use knot_service_source.Msg.Trust.{trust_map_get, deref_watch}
use knot_service_source.Msg.Config.{queue_concat, config_is_valid, get_changed_config, truthy}
use knot_service_source.Msg.Parse.{parse_device_config, parse_device_setdata, parse_device_getdata}

-- `l_queue_foreach` with a callback that rewrites each entry.
abbrev pub each : {A : Type 0} → (A → A) → Queue A → Queue A
each f none = none
each f (some xs) = some (map f xs)

abbrev pub retype : {A B : Type 0} → (A → B) → Queue A → Queue B
retype f none = none
retype f (some xs) = some (map f xs)

-- The negative of an error number.
abbrev pub neg : ℕ → ℤ
neg zero = pos 0
neg (suc n) = negsuc n

module _ (e : Env) where
  unfoldable pub update_msg_item_header : MsgItem → MsgItem
  update_msg_item_header kmitem = record kmitem {
    hdr = record { kind = e.get_data; payload_len = e.sensor_id_size };
  }

  unfoldable pub update_msg_data_header : MsgData e.Val → MsgData e.Val
  update_msg_data_header kmdata = record kmdata {
    hdr = record { kind = e.set_data; payload_len = e.sensor_id_size + e.data_payload_size };
  }

  unfoldable pub msg_getdata : ℕ → Response → Action e (Queue MsgItem)
  unfolding trust_map_get update_msg_item_header
  msg_getdata node_sock device_message = do
    found ← trust_map_get e node_sock
    elim found [
      | none ↦ pure none
      | some trust ↦ pure (each update_msg_item_header (parse_device_getdata e device_message))
    ]

  unfoldable pub msg_setdata : ℕ → Response → Action e (Queue (MsgData e.Val))
  unfolding trust_map_get update_msg_data_header
  msg_setdata node_sock device_message = do
    found ← trust_map_get e node_sock
    elim found [
      | none ↦ pure none
      | some trust ↦ pure (each update_msg_data_header (parse_device_setdata e device_message))
    ]

  unfoldable pub config_received : ℕ → Queue (Config e.Val) → Action e (Queue (MsgConfig e.Val))
  config_received trust config = do
    t ← deref e trust
    assign e trust (λ t. record t { config = config })
    pure (get_changed_config e t.config config)

  unfoldable pub msg_config : ℕ → Response → Action e (Queue (MsgConfig e.Val))
  unfolding trust_map_get config_received
  msg_config node_sock device_message = do
    found ← trust_map_get e node_sock
    elim found [
      | none ↦ pure none
      | some trust ↦
          let config = parse_device_config e device_message in
          if truthy (config_is_valid e config) then pure none else config_received trust config
    ]

  -- What `write` returned, and `errno`.
  abbrev pub write_result : ℤ × ℕ × e.World → (ℤ × ℕ) × e.World
  write_result (nbytes, errno, w) = ((nbytes, errno), w)

  -- `-errno` where `write` fails.
  unfoldable pub fw_push : ℕ → NodeMsg e.Val → Action e ℤ
  fw_push sock kmsg = do
    sent ←
        outside e
          (λ w. write_result (e.write sock kmsg ((header_of kmsg).payload_len + e.header_size) w))
    pure (if is_neg sent.0 then neg sent.1 else pos 0)

  -- `l_queue_foreach` with `send_message`: a failure is logged and the rest is still sent.
  unfoldable pub send_all : ℕ → List (NodeMsg e.Val) → Action e (Unit {0})
  unfolding fw_push
  send_all node_sock [] = pure tt
  send_all node_sock (msg ∷ rest) = do fw_push node_sock msg; send_all node_sock rest

  -- `messages` after the three `queue_concat`.
  abbrev pub all_messages :
      Queue (MsgConfig e.Val) → Queue (MsgData e.Val) → Queue MsgItem → Queue (NodeMsg e.Val)
  all_messages configs setdata getdata =
      queue_concat
        (queue_concat (queue_concat (some []) (retype config_msg configs))
          (retype data_msg setdata))
        (retype item_msg getdata)

  -- `on_device_changed` from the socket of its watch's channel on.
  unfoldable pub forward : ℕ → Response → Action e (Unit {0})
  unfolding msg_config msg_setdata msg_getdata send_all queue_concat
  forward node_sock device_message = do
    configs ← msg_config node_sock device_message
    setdata ← msg_setdata node_sock device_message
    getdata ← msg_getdata node_sock device_message
    send_all node_sock (entries (all_messages configs setdata getdata))

  unfoldable pub on_device_changed : ℕ → Response → Action e (Unit {0})
  unfolding forward
  on_device_changed watch device_message = do
    w ← deref_watch e watch
    node_io ← λ s. or_fault (lookup w.node_io s.channels) freed_channel s
    forward node_io.node_sock device_message
