-- ===== src/Session/State.antt =====
-- The state of src/session.c: the sessions, the `l_io` channels that hold them, `session_list`, and
-- the pending timeouts. An address is a number that is used once.
use knot_service_source.Common.{ℕ, Bool, Option, some, List, lookup, if◌then◌else◌, ◌==◌}
use knot_service_source.Common.Queue.{Queue}
use knot_service_source.Common.Monad.{M, modify, or_fault, ◌>>=◌, Result, ok, fault, dangling}
use knot_service_source.Session.Driver.{Driver}

-- `struct session`, but for the operations that it was made with, which are the driver's.
pub record Session : Type 0 where
  pub refs : ℕ
  pub node_channel : Option ℕ
  pub proto_channel : Option ℕ

-- An `l_io`, with the session that its handlers were given.
pub record Io : Type 0 where
  pub fd : ℕ
  pub session : ℕ

module _ (d : Driver) where
  -- `timeouts` holds the node channels that a timeout of `on_node_channel_data_error` was given.
  pub record State : Type 0 where
    pub heap : ℕ → Option Session
    pub next : ℕ
    pub node_channels : List (ℕ × Io)
    pub proto_channels : List (ℕ × Io)
    pub session_list : Queue ℕ
    pub destroying : Bool
    pub timeouts : List ℕ
    pub world : d.World

  -- A call of src/session.c.
  abbrev pub Action : Type 0 → Type 0
  Action A = M State A

  -- Reads a session through a pointer.
  abbrev pub deref : ℕ → Action Session
  deref a s = or_fault (s.heap a) dangling s

  -- Writes `cell` at an address; `none` frees it.
  abbrev pub write_at : ℕ → Option Session → State → State
  write_at a cell s = record s { heap = λ b. if b == a then cell else s.heap b }

  -- Assigns members of the session at an address.
  abbrev pub assign : ℕ → (Session → Session) → Action (Unit {0})
  assign a f = do t ← deref a; modify (write_at a (some (f t)))

  -- Reads a channel through a pointer.
  abbrev pub deref_node : ℕ → Action Io
  deref_node c s = or_fault (lookup c s.node_channels) dangling s

  abbrev pub deref_proto : ℕ → Action Io
  deref_proto c s = or_fault (lookup c s.proto_channels) dangling s

  -- A call outside the file, on the world.
  abbrev pub outside : {A : Type 0} → (d.World → A × d.World) → Action A
  outside f s = let (a, w) = f s.world in ok (a, record s { world = w })

  -- The state after a call outside that changed the world.
  abbrev pub with_world : {A : Type 0} → State → Result (A × d.World) → Result (A × State)
  with_world s (ok (a, w)) = ok (a, record s { world = w })
  with_world s (fault x) = fault x
