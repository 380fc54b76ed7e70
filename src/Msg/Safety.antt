-- ===== src/Msg/Safety.antt =====
-- src/msg.c: the life of trusts and device watches over any sequence of calls into the file.
use knot_service_source.Common.{ℕ, ◌≢◌, refl, none, List, []}
use knot_service_source.Env.{Env}
use knot_service_source.Common.Monad.{fault, dangling, pure}
use knot_service_source.Common.Hoare.{Holds, Holds->>=, Holds-weaken, Holds-not_dangling, Holds_ok}
use knot_service_source.Msg.State.{State}
use knot_service_source.Msg.Trust.{on_device_watch_destroyed}
use knot_service_source.Msg.Process.{msg_process}
use knot_service_source.Msg.Lifetime.Invariant.{Inv}
use knot_service_source.Msg.Lifetime.Steps.{world-Inv}
use knot_service_source.Msg.Lifetime.Trusts.{pure-Holds, on_device_watch_destroyed-Holds}
use knot_service_source.Msg.Lifetime.DataHandlers.{msg_process-Keeps}
use knot_service_source.Msg.Lifetime.Callbacks.{on_device_changed-Keeps}
use knot_service_source.Msg.Lifetime.HangUp.{hang_up-Holds}
use knot_service_source.Msg.Run.{
  msg_start, Event, request, device_changed, watch_destroyed, hung_up, handle, Live, Reachable,
  started, handled, elsewhere,
}

module _ (e : Env) where
  pub start-Inv : (uuid : List ℕ) (w : e.World) → Inv e [] none (msg_start e uuid w)
  unfolding msg_start
  start-Inv uuid w = record {
    counted = λ _. refl;
    fresh = λ _ _. refl;
    distinct = tt;
    watched = λ _ _ p. absurd (cc);
    channelled = λ _ _ p. absurd (cc);
    new_channel = λ _ _. refl;
    new_watch = λ _ _. refl;
  }

  pub handle-Holds :
      (event : Event) (s : State e)
      → Live e event s
      → Inv e [] none s
      → Holds (λ _ s'. Inv e [] none s') (handle e event s)
  unfolding handle
  handle-Holds (request sock proto_sock ipdu opdu omtu) s l v =
      Holds->>= (λ _ s'. Inv e [] none s') (λ _ s'. Inv e [] none s')
        (msg_process e sock proto_sock ipdu opdu omtu) (λ _. pure tt) s
        (msg_process-Keeps e sock proto_sock ipdu opdu omtu s v) λ _ s' i. pure-Holds e _ tt s' i
  handle-Holds (device_changed watch json) s (w, found) v =
      on_device_changed-Keeps e watch json s w found v
  handle-Holds (watch_destroyed watch) s (w, found) v =
      Holds-weaken _ (λ _ s'. Inv e [] none s') (on_device_watch_destroyed e watch s)
        (on_device_watch_destroyed-Holds e [] watch w s found v) λ _ s' k. k.0
  handle-Holds (hung_up channel) s (c, found) v = hang_up-Holds e channel c s found v

-- Between two calls, a trust is allocated exactly while `trust_map`, a node channel or a device watch
-- points to it, and its reference count is the number of those pointers; each socket stands in
-- `trust_map` at most once, and has a node channel for its trust; and the device watch that a trust
-- names belongs to it.
pub Reachable-Inv : (e : Env) (s : State e) → Reachable e s → Inv e [] none s
Reachable-Inv e _ (started uuid w) = start-Inv e uuid w
Reachable-Inv e _ (handled event s s' r l p) =
    Holds_ok (λ _ s'. Inv e [] none s') (handle e event s) tt s'
      (handle-Holds e event s l (Reachable-Inv e s r)) p
Reachable-Inv e _ (elsewhere s w r) = world-Inv e [] none s w (Reachable-Inv e s r)

-- Between two calls, a node's message, a report on a device whose watch exists, the end of such a
-- watch and the end of a node channel that exists never use a trust or a device watch that has been
-- freed, whatever the calls before were.
pub no_use_after_free :
    (e : Env) (event : Event) (s : State e)
    → Reachable e s
    → Live e event s
    → handle e event s ≢ fault dangling
no_use_after_free e event s r l =
    Holds-not_dangling (λ _ s'. Inv e [] none s') (handle e event s)
      (handle-Holds e event s l (Reachable-Inv e s r))
