-- ===== src/Session/Gateway.antt =====
-- src/session.c and src/msg.c together: `on_data` is `msg_process`, and the world of the sessions is the
-- state of src/msg.c.
use knot_service_source.Common.{ℕ, ℤ, Bool, ◌≡◌, ◌≢◌, none, []}
use knot_service_source.Common.Monad.{ok, fault, dangling}
use knot_service_source.Env.{Env}
use knot_service_source.Env.Messages.{Bytes}
use knot_service_source.Msg.Register.{Opdu}
use knot_service_source.Msg.Process.{msg_process}
use knot_service_source.Msg.Lifetime.DataHandlers.{msg_process-Keeps}
use knot_service_source.Session.Driver.{Driver, Lawful}
use knot_service_source.Session.State.{State, Action, with_world}
use knot_service_source.Session.Run.{Event, initial, handle, Live}
use knot_service_source.Session.Safety.{initial-Steady, handle-Holds}
use knot_service_source.Session.Handlers.{Steady, with_world-Holds}
use knot_service_source.Common.Hoare.{Holds, Holds_ok, Holds-not_dangling}
use knot_service_source.Msg.State as Objects
use knot_service_source.Msg.Run as Calls
use knot_service_source.Msg.Safety as CallsSafety
use knot_service_source.Msg.Lifetime.Invariant as Lifetime
use knot_service_source.Msg.Lifetime.Steps as Steps

-- The radio behind `struct node_ops` and the connection of `struct proto_ops`. `opdu` is what the
-- buffer for the answer holds before the call.
pub record Radio (e : Env) : Type 0 where
  pub recv : ℕ → e.World → (ℤ × Bytes) × e.World
  pub send : ℕ → Opdu → ℕ → e.World → ℤ × e.World
  pub connect : e.World → ℤ × e.World
  pub close : ℕ → e.World → e.World
  pub opdu : Opdu
  pub disconnects : Bool

module _ (e : Env) (r : Radio e) where
  abbrev pub lifted : {A : Type 0} → A × e.World → Objects.State e → A × Objects.State e
  lifted (a, w) s = (a, record s { world = w })

  unfoldable pub gateway : Driver
  gateway = record {
    World = Objects.State e;
    Reply = Opdu;
    recv = λ fd s. lifted (r.recv fd s.world) s;
    on_data = λ node proto ipdu room s. msg_process e node proto ipdu r.opdu room s;
    send = λ fd reply n s. lifted (r.send fd reply n s.world) s;
    connect = λ s. lifted (r.connect s.world) s;
    close = λ fd s. record s { world = r.close fd s.world };
    disconnects = r.disconnects;
  }

  -- `msg_process` uses nothing that was freed while the objects of src/msg.c are well formed.
  pub gateway-Lawful : Lawful gateway
  unfolding gateway
  gateway-Lawful = record {
    Valid = λ s. Lifetime.Inv e [] none s;
    recv-Valid = λ fd s v. Steps.world-Inv e [] none s (r.recv fd s.world).1 v;
    on_data-Valid = λ node proto ipdu room s v. msg_process-Keeps e node proto ipdu r.opdu room s v;
    send-Valid = λ fd reply n s v. Steps.world-Inv e [] none s (r.send fd reply n s.world).1 v;
    connect-Valid = λ s v. Steps.world-Inv e [] none s (r.connect s.world).1 v;
    close-Valid = λ fd s v. Steps.world-Inv e [] none s (r.close fd s.world) v;
  }

-- A call of either file.
pub data Call : Type 0 where
  of_session : Event → Call
  of_msg : Calls.Event → Call

module _ (e : Env) (r : Radio e) where
  unfoldable pub step : Call → Action (gateway e r) (Unit {0})
  unfolding handle gateway
  step (of_session event) s = handle (gateway e r) event s
  step (of_msg event) s = with_world (gateway e r) s (Calls.handle e event s.world)

  abbrev pub Can : Call → State (gateway e r) → Type 0
  unfolding gateway
  Can (of_session event) s = Live (gateway e r) event s
  Can (of_msg event) s = Calls.Live e event s.world

  -- After `msg_start`, before the first session.
  unfoldable pub beginning : Bytes → e.World → State (gateway e r)
  unfolding gateway
  beginning uuid world = initial (gateway e r) (Calls.msg_start e uuid world)

  -- The states between two calls, from `msg_start` on.
  pub data Runs : State (gateway e r) → Type 0 where
    begun : (uuid : Bytes) (world : e.World) → Runs (beginning uuid world)
    stepped :
        (call : Call) (s s' : State (gateway e r))
        → Runs s
        → Can call s
        → step call s ≡ ok (tt, s')
        → Runs s'

  step-Holds :
      (call : Call) (s : State (gateway e r))
      → Can call s
      → Steady (gateway e r) (gateway-Lawful e r) s
      → Holds (λ _ s'. Steady (gateway e r) (gateway-Lawful e r) s') (step call s)
  unfolding step gateway gateway-Lawful
  step-Holds (of_session event) s can g =
      handle-Holds (gateway e r) (gateway-Lawful e r) event s can g
  step-Holds (of_msg event) s can g =
      with_world-Holds (gateway e r) (gateway-Lawful e r) s (Calls.handle e event s.world) g
        (CallsSafety.handle-Holds e event s.world can g.1)

  Runs-Steady : (s : State (gateway e r)) → Runs s → Steady (gateway e r) (gateway-Lawful e r) s
  unfolding beginning gateway gateway-Lawful
  Runs-Steady _ (begun uuid world) =
      initial-Steady (gateway e r) (gateway-Lawful e r) (Calls.msg_start e uuid world)
        (CallsSafety.start-Inv e uuid world)
  Runs-Steady _ (stepped call s s' ran can p) =
      Holds_ok (λ _ s'. Steady (gateway e r) (gateway-Lawful e r) s') (step call s) tt s'
        (step-Holds call s can (Runs-Steady s ran)) p

-- With `msg_process` as the callback of the sessions, no call into src/session.c or src/msg.c that comes
-- while its channel or watch exists uses a freed session, a freed channel of a session, a freed trust or a
-- freed device watch, after any sequence of such calls. It is not stated of the channel that a device
-- watch holds, nor of the queue's entries at a shutdown.
pub gateway_not_dangling :
    (e : Env) (r : Radio e) (call : Call) (s : State (gateway e r))
    → Runs e r s
    → Can e r call s
    → step e r call s ≢ fault dangling
gateway_not_dangling e r call s ran can =
    Holds-not_dangling (λ _ s'. Steady (gateway e r) (gateway-Lawful e r) s') (step e r call s)
      (step-Holds e r call s can (Runs-Steady e r s ran))
