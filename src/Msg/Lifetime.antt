-- ===== src/Msg/Lifetime.antt =====
-- src/msg.c: the callbacks of a node channel, and the life of a trust.
pub mod Invariant
pub mod Steps
pub mod Trusts
pub mod Handlers
pub mod DataHandlers
pub mod Callbacks
pub mod HangUp
use knot_service_source.Common.{ℕ, Bool, true, false, Option, none, some, lookup, erase}
use knot_service_source.Env.{Env}
use knot_service_source.Common.Monad.{pure, modify, ◌>>=◌, ◌>>◌, dangling, or_fault}
use knot_service_source.Msg.State.{Action, deref}
use knot_service_source.Msg.Trust.{
  trust_map_get, trust_map_remove, remove_device_watch, on_node_channel_destroyed,
}
use knot_service_source.Msg.Register.{msg_unregister}

module _ (e : Env) where
  -- `if (trust->rollback)`: a registration that was not completed is taken back.
  unfoldable pub roll_back : Bool → ℕ → ℕ → Action e (Unit {0})
  roll_back false node_sock proto_sock = pure tt
  roll_back true node_sock proto_sock = do msg_unregister e node_sock proto_sock; pure tt

  unfoldable pub stop_watch : Option ℕ → Action e (Unit {0})
  stop_watch none = pure tt
  stop_watch (some watch) = remove_device_watch e watch

  unfoldable pub on_node_channel_disconnected : ℕ → Action e (Unit {0})
  unfolding roll_back stop_watch trust_map_get
  on_node_channel_disconnected node_sock = do
    found ← trust_map_get e node_sock
    elim found [
      | none ↦ pure tt
      | some trust ↦ do
        t ← deref e trust
        roll_back t.rollback node_sock t.proto_sock
        t' ← deref e trust
        stop_watch t'.proto_watch
        trust_map_remove e node_sock
    ]

  -- ELL's part when the node hangs up: the disconnect handler runs, then the destroy callback with
  -- the trust that the handler was given, and the channel is gone.
  unfoldable pub hang_up : ℕ → Action e (Unit {0})
  unfolding on_node_channel_disconnected on_node_channel_destroyed
  hang_up channel = do
    c ← (λ s. or_fault (lookup channel s.channels) dangling s)
    on_node_channel_disconnected c.node_sock
    on_node_channel_destroyed e c.trust
    modify λ s. record s { channels = erase channel s.channels }
