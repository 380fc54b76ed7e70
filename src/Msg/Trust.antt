-- ===== src/Msg/Trust.antt =====
-- src/msg.c: `struct trust`, its reference count, `trust_map`, the node channel and the device watch.
use knot_service_source.Common.{
  ℕ, suc, ◌+◌, ◌-◌, Bool, true, false, Option, none, some, [], ◌∷◌, lookup, erase, ltb,
  if◌then◌else◌,
}
use knot_service_source.Common.Queue.{Queue}
use knot_service_source.Env.{Env}
use knot_service_source.Env.Messages.{Bytes, MsgSchema}
use knot_service_source.Common.Monad.{pure, gets, modify, or_fault, ◌>>=◌, ◌>>◌, dangling}
use knot_service_source.Msg.State.{
  Config, Trust, ProtoWatch, State, Action, deref, write_at, assign, outside,
}

module _ (e : Env) where
  unfoldable pub trust_map_get : ℕ → Action e (Option ℕ)
  trust_map_get id = gets λ s. lookup id s.trust_map

  unfoldable pub trust_map_add : ℕ → ℕ → Action e (Unit {0})
  trust_map_add id trust = modify λ s. record s { trust_map = (id, trust) ∷ s.trust_map }

  unfoldable pub trust_ref : ℕ → Action e ℕ
  trust_ref trust = do assign e trust (λ t. record t { refs = t.refs + 1 }); pure trust

  -- `refs` is an unsigned count here: it is never decremented below 0 while the trust is allocated.
  unfoldable pub trust_unref : ℕ → Action e (Unit {0})
  trust_unref trust = do
    t ← deref e trust
    modify (write_at e trust (if ltb 1 t.refs then some (record t { refs = t.refs - 1 }) else none))

  -- `if (trust) trust_unref(trust)`.
  unfoldable pub unref_found : Option ℕ → Action e (Unit {0})
  unfolding trust_unref
  unref_found none = pure tt
  unref_found (some trust) = trust_unref trust

  unfoldable pub trust_map_remove : ℕ → Action e (Unit {0})
  unfolding unref_found
  trust_map_remove id = do
    found ← gets λ s. lookup id s.trust_map
    modify λ s. record s { trust_map = erase id s.trust_map }
    unref_found found

  unfoldable pub trust_map_replace : ℕ → ℕ → Action e (Unit {0})
  unfolding trust_map_remove trust_map_add
  trust_map_replace id trust = do trust_map_remove id; trust_map_add id trust

  -- `l_new(struct trust, 1)`, with `refs` set to 1: all other members are zero.
  abbrev pub blank : Trust e.Val
  blank = record {
    refs = 1;
    pid = 0;
    id = 0;
    rollback = false;
    uuid = [];
    token = [];
    schema = none;
    schema_tmp = none;
    config = none;
    proto_sock = 0;
    proto_watch = none;
  }

  -- The state with one more trust allocated.
  abbrev pub with_blank : State e → State e
  with_blank s = record (write_at e s.next (some blank) s) { next = suc s.next }

  unfoldable pub trust_new : Action e ℕ
  trust_new = do trust ← gets λ s. s.next; modify with_blank; pure trust

  unfoldable pub create_node_channel : ℕ → ℕ → Action e ℕ
  unfolding trust_ref
  create_node_channel node_sock trust = do
    held ← trust_ref trust
    channel ← gets λ s. s.next
    modify λ s. record s {
      next = suc s.next;
      channels = (channel, record { node_sock = node_sock; trust = held }) ∷ s.channels;
    }
    pure channel

  unfoldable pub create_device_watch : ℕ → ℕ → Action e ℕ
  unfolding trust_ref
  create_device_watch trust node_io = do
    t ← deref e trust
    id ← outside e (e.async t.proto_sock t.uuid t.token)
    held ← trust_ref trust
    watch ← gets λ s. s.next
    modify λ s. record s {
      next = suc s.next;
      watches = (watch, record { id = id; node_io = node_io; trust = held }) ∷ s.watches;
    }
    pure watch

  -- Reads a device watch through a pointer.
  abbrev pub deref_watch : ℕ → Action e ProtoWatch
  deref_watch watch s = or_fault (lookup watch s.watches) dangling s

  unfoldable pub on_device_watch_destroyed : ℕ → Action e (Unit {0})
  unfolding trust_unref
  on_device_watch_destroyed watch = do
    w ← deref_watch watch
    assign e w.trust (λ t. record t { proto_watch = none })
    trust_unref w.trust
    modify λ s. record s { watches = erase watch s.watches }

  -- The driver's destroy callback, if `async_stop` runs it.
  unfoldable pub destroy_if : Bool → ℕ → Action e (Unit {0})
  destroy_if true watch = on_device_watch_destroyed watch
  destroy_if false watch = pure tt

  unfoldable pub remove_device_watch : ℕ → Action e (Unit {0})
  unfolding destroy_if
  remove_device_watch watch = do
    w ← deref_watch watch
    t ← deref e w.trust
    called ← outside e (e.async_stop t.proto_sock w.id)
    destroy_if called watch

  -- "Add watch to device changes in the cloud": the end of `trust_create`.
  unfoldable pub attach_watch : ℕ → ℕ → Action e (Unit {0})
  unfolding create_device_watch
  attach_watch node_io trust = do
    watch ← create_device_watch trust node_io
    assign e trust λ t. record t { proto_watch = some watch }

  -- `trust_create` from `trust_map_replace` on.
  unfoldable pub publish : ℕ → ℕ → Action e (Unit {0})
  unfolding trust_map_replace create_node_channel attach_watch
  publish node_sock trust = do
    trust_map_replace node_sock trust
    channel ← create_node_channel node_sock trust
    attach_watch channel trust

  -- What `trust_create` assigns to the new trust.
  abbrev pub filled :
      ℕ
      → Bytes
      → Bytes
      → ℕ
      → ℕ
      → Bool
      → Queue MsgSchema
      → Queue (Config e.Val)
      → Trust e.Val
      → Trust e.Val
  filled proto_sock uuid token device_id pid rollback schema config t = record t {
    uuid = uuid;
    token = token;
    id = device_id;
    pid = pid;
    rollback = rollback;
    schema = schema;
    config = config;
    proto_sock = proto_sock;
  }

  unfoldable pub trust_create :
      ℕ
      → ℕ
      → Bytes
      → Bytes
      → ℕ
      → ℕ
      → Bool
      → Queue MsgSchema
      → Queue (Config e.Val)
      → Action e (Unit {0})
  unfolding trust_new publish
  trust_create node_sock proto_sock uuid token device_id pid rollback schema config = do
    trust ← trust_new
    assign e trust (filled proto_sock uuid token device_id pid rollback schema config)
    publish node_sock trust

  unfoldable pub on_node_channel_destroyed : ℕ → Action e (Unit {0})
  unfolding trust_unref
  on_node_channel_destroyed trust = trust_unref trust
