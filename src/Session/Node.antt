-- ===== src/Session/Node.antt =====
-- src/session.c: a node's data, and the life of the sessions.
use knot_service_source.Common.{
  without, ℕ, zero, suc, ℤ, pos, negsuc, Bool, true, false, Option, none, some, List, [], ◌∷◌,
  if◌then◌else◌, ltb, occurs,
}
use knot_service_source.Common.Queue.{Queue, entries, push_tail}
use knot_service_source.Common.Monad.{
  freed_entry, fail, pure, gets, modify, or_fault, ◌>>=◌, ◌>>◌, null_pointer,
}
use knot_service_source.Env.Messages.{Bytes}
use knot_service_source.Session.Driver.{Driver}
use knot_service_source.Session.State.{
  Action, deref, assign, deref_node, deref_proto, outside, with_world,
}
use knot_service_source.Session.Channels.{
  session_new, session_unref, connect_proto, destroy_node_channel,
}

-- `sizeof(opdu)`.
abbrev pub opdu_size : ℕ
opdu_size = 512

module _ (d : Driver) where
  -- The timeout is never freed; it fires once.
  unfoldable pub on_node_channel_destroy_timeout : ℕ → Action d (Unit {0})
  unfolding destroy_node_channel
  on_node_channel_destroy_timeout channel = do
    modify λ s. record s { timeouts = without channel s.timeouts }
    destroy_node_channel d channel

  unfoldable pub on_node_channel_data_error : ℕ → Action d (Unit {0})
  on_node_channel_data_error channel = modify λ s.
      if s.destroying then s else record s { destroying = true; timeouts = channel ∷ s.timeouts }

  -- An error: the handler returns false, so that the channel is read no more.
  unfoldable pub give_up : ℕ → Action d Bool
  unfolding on_node_channel_data_error
  give_up channel = do on_node_channel_data_error channel; pure false

  -- The end of `on_node_channel_data`, with `olen` and the reply.
  unfoldable pub reply_with : ℕ → ℕ → ℤ × d.Reply → Action d Bool
  unfolding give_up
  reply_with channel node_socket (negsuc n, opdu) = give_up channel
  reply_with channel node_socket (pos zero, opdu) = pure true
  reply_with channel node_socket (pos (suc n), opdu) = do
    outside d (d.send node_socket opdu (suc n))
    pure true

  -- `on_data` on the descriptor of the session's cloud channel.
  unfoldable pub answer : ℕ → ℕ → ℕ → Bytes → Action d Bool
  unfolding reply_with
  answer channel node_socket session ipdu = do
    t ← deref d session
    proto_channel ← or_fault t.proto_channel null_pointer
    proto_io ← deref_proto d proto_channel
    reply ← (λ s. with_world d s (d.on_data node_socket proto_io.fd ipdu opdu_size s.world))
    reply_with channel node_socket reply

  -- `if (err)` after `connect_proto`.
  unfoldable pub reconnected : ℕ → ℕ → ℕ → Bytes → ℤ → Action d Bool
  unfolding answer
  reconnected channel node_socket session ipdu (pos zero) = answer channel node_socket session ipdu
  reconnected channel node_socket session ipdu (pos (suc n)) = give_up channel
  reconnected channel node_socket session ipdu (negsuc n) = give_up channel

  unfoldable pub received : ℕ → ℕ → ℕ → ℤ × Bytes → Action d Bool
  unfolding reconnected connect_proto
  received channel node_socket session (negsuc n, ipdu) = give_up channel
  received channel node_socket session (pos zero, ipdu) = give_up channel
  received channel node_socket session (pos (suc n), ipdu) = do
    t ← deref d session
    elim t.proto_channel [
      | some c ↦ answer channel node_socket session ipdu
      | none ↦ do err ← connect_proto d session; reconnected channel node_socket session ipdu err
    ]

  unfoldable pub on_node_channel_data : ℕ → Action d Bool
  unfolding received
  on_node_channel_data channel = do
    io ← deref_node d channel
    got ← outside d (d.recv io.fd)
    received channel io.fd io.session got

  unfoldable pub create_node_channel : ℕ → ℕ → Action d ℕ
  create_node_channel node_socket session = do
    channel ← gets λ s. s.next
    modify λ s. record s {
      next = suc s.next;
      node_channels = (channel, record { fd = node_socket; session = session }) ∷ s.node_channels;
    }
    pure channel

  -- A queue that is made where it is missing.
  abbrev pub push_session : ℕ → Queue ℕ → Queue ℕ
  push_session session none = push_tail (some []) session
  push_session session (some xs) = push_tail (some xs) session

  unfoldable pub session_connected : ℕ → ℕ → ℤ → Action d ℤ
  unfolding create_node_channel session_unref
  session_connected client_socket session (negsuc n) = do session_unref d session; pure (negsuc n)
  session_connected client_socket session (pos n) = do
    channel ← create_node_channel client_socket session
    assign d session (λ t. record t { node_channel = some channel })
    modify (λ s. record s { session_list = push_session session s.session_list })
    pure (pos 0)

  unfoldable pub session_create : ℕ → Action d ℤ
  unfolding session_new connect_proto session_connected
  session_create client_socket = do
    session ← session_new d
    err ← connect_proto d session
    session_connected client_socket session err

  -- `l_io_destroy` accepts NULL.
  abbrev pub destroy_channel : Option ℕ → Action d (Unit {0})
  destroy_channel none = pure tt
  destroy_channel (some channel) = destroy_node_channel d channel

  unfoldable pub session_destroy : ℕ → Action d (Unit {0})
  unfolding destroy_node_channel
  session_destroy session = do t ← deref d session; destroy_channel t.node_channel

  -- `l_queue_foreach` with `session_destroy`: ELL's loop reads the `next` pointer of an entry after the
  -- call for it, and `l_queue_remove` has freed an entry that is no longer in the queue.
  unfoldable pub destroy_each : List ℕ → Action d (Unit {0})
  unfolding session_destroy
  destroy_each [] = pure tt
  destroy_each (session ∷ rest) =
      let others = destroy_each rest in
      do
        session_destroy session
        listed ← gets λ s. ltb 0 (occurs session (entries s.session_list))
        if listed then others else fail freed_entry

  -- The loop starts at the head of the queue.
  unfoldable pub session_destroy_all : Action d (Unit {0})
  unfolding destroy_each
  session_destroy_all = do
    sessions ← gets λ s. s.session_list
    destroy_each (entries sessions)
    modify λ s. record s { session_list = none }
