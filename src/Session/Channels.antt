-- ===== src/Session/Channels.antt =====
-- src/session.c: a session's reference count, its node channel and its cloud channel.
use knot_service_source.Common.{
  without, ℕ, suc, ◌+◌, ◌-◌, ℤ, pos, negsuc, Bool, true, false, Option, none, some, ◌∷◌, erase, ltb,
  if◌then◌else◌,
}
use knot_service_source.Common.Queue.{Queue}
use knot_service_source.Common.Monad.{pure, gets, modify, ◌>>=◌, ◌>>◌}
use knot_service_source.Session.Driver.{Driver}
use knot_service_source.Session.State.{
  Session, State, Action, deref, write_at, assign, deref_node, deref_proto, outside,
}

abbrev pub queue_remove : ℕ → Queue ℕ → Queue ℕ
queue_remove a none = none
queue_remove a (some xs) = some (without a xs)

module _ (d : Driver) where
  -- `l_new(struct session, 1)` with `refs` set to 1.
  abbrev pub blank : Session
  blank = record { refs = 1; node_channel = none; proto_channel = none }

  abbrev pub with_blank : State d → State d
  with_blank s = record (write_at d s.next (some blank) s) { next = suc s.next }

  unfoldable pub session_new : Action d ℕ
  session_new = do session ← gets λ s. s.next; modify with_blank; pure session

  unfoldable pub session_ref : ℕ → Action d (Unit {0})
  session_ref session = assign d session λ t. record t { refs = t.refs + 1 }

  -- A session with one reference is freed.
  unfoldable pub session_unref : ℕ → Action d (Unit {0})
  session_unref session = do
    t ← deref d session
    modify
        (write_at d session (if ltb 1 t.refs then some (record t { refs = t.refs - 1 }) else none))

  unfoldable pub on_proto_channel_disconnected : ℕ → Action d (Unit {0})
  on_proto_channel_disconnected session = assign d session λ t. record t { proto_channel = none }

  unfoldable pub on_proto_channel_destroyed : ℕ → Action d (Unit {0})
  unfolding session_unref
  on_proto_channel_destroyed session = session_unref session

  unfoldable pub create_proto_channel : ℕ → ℕ → Action d ℕ
  unfolding session_ref
  create_proto_channel proto_socket session = do
    session_ref session
    channel ← gets λ s. s.next
    modify λ s. record s {
      next = suc s.next;
      proto_channels =
          (channel, record { fd = proto_socket; session = session }) ∷ s.proto_channels;
    }
    pure channel

  -- The rest of `connect_proto`, with what the driver's `connect` returned.
  unfoldable pub proto_connected : ℕ → ℤ → Action d ℤ
  unfolding create_proto_channel
  proto_connected session (negsuc n) = pure (negsuc n)
  proto_connected session (pos proto_socket) = do
    channel ← create_proto_channel proto_socket session
    assign d session (λ t. record t { proto_channel = some channel })
    pure (pos 0)

  unfoldable pub connect_proto : ℕ → Action d ℤ
  unfolding proto_connected
  connect_proto session = do
    proto_socket ← outside d d.connect
    proto_connected session proto_socket

  -- `proto_ops->close` on the channel's descriptor.
  abbrev pub close_channel : Option ℕ → Action d (Unit {0})
  close_channel none = pure tt
  close_channel (some channel) = do
    io ← deref_proto d channel
    outside d (λ w. (tt, d.close io.fd w))

  unfoldable pub disconnect_proto : ℕ → Action d (Unit {0})
  disconnect_proto session = do t ← deref d session; close_channel t.proto_channel

  unfoldable pub on_node_channel_disconnected : ℕ → Action d (Unit {0})
  unfolding disconnect_proto
  on_node_channel_disconnected session = do
    disconnect_proto session
    assign d session λ t. record t { node_channel = none }

  unfoldable pub on_node_channel_destroyed : ℕ → Action d (Unit {0})
  unfolding session_unref
  on_node_channel_destroyed session = do
    modify λ s. record s { session_list = queue_remove session s.session_list }
    session_unref session

  abbrev pub disconnect_if : Bool → ℕ → Action d (Unit {0})
  disconnect_if true session = on_node_channel_disconnected session
  disconnect_if false session = pure tt

  -- ELL's part when a node channel ends: the disconnect handler, if it runs, and the destroy callback;
  -- the channel is then no longer one of `node_channels`, the channels whose handlers are in place. What
  -- ELL does when a channel that has ended is ended again is not modelled: the theorems ask that it has
  -- not.
  unfoldable pub end_node_channel : Bool → ℕ → Action d (Unit {0})
  unfolding on_node_channel_disconnected on_node_channel_destroyed
  end_node_channel disconnected channel = do
    io ← deref_node d channel
    disconnect_if disconnected io.session
    on_node_channel_destroyed io.session
    modify λ s. record s { node_channels = erase channel s.node_channels }

  -- `l_io_destroy`.
  unfoldable pub destroy_node_channel : ℕ → Action d (Unit {0})
  unfolding end_node_channel
  destroy_node_channel channel = end_node_channel d.disconnects channel

  -- ELL's part when the cloud hangs up.
  unfoldable pub end_proto_channel : ℕ → Action d (Unit {0})
  unfolding on_proto_channel_disconnected on_proto_channel_destroyed
  end_proto_channel channel = do
    io ← deref_proto d channel
    on_proto_channel_disconnected io.session
    on_proto_channel_destroyed io.session
    modify λ s. record s { proto_channels = erase channel s.proto_channels }
