-- ===== src/Msg/State.antt =====
-- The static state of src/msg.c: `trust_map`, and the objects that it and the callbacks point to.
-- An address is a number that is used once; `heap` says which trusts are allocated. `channels` holds
-- the node channels whose disconnect handler keeps a trust, `watches` the device watches.
use knot_service_source.Common.{ℕ, Bool, Option, some, List, if◌then◌else◌, ◌==◌}
use knot_service_source.Common.Queue.{Queue}
use knot_service_source.Env.{Env}
use knot_service_source.Env.Messages.{Bytes, MsgSchema, MsgConfig}
use knot_service_source.Common.Monad.{M, modify, or_fault, ◌>>=◌, ok, dangling}

-- `struct config`.
pub record Config (V : Type 0) : Type 0 where
  pub kmcfg : MsgConfig V
  pub hash : Bytes
  pub confirmed : Bool

-- `struct trust`.
pub record Trust (V : Type 0) : Type 0 where
  pub refs : ℕ
  pub pid : ℕ
  pub id : ℕ
  pub rollback : Bool
  pub uuid : Bytes
  pub token : Bytes
  pub schema : Queue MsgSchema
  pub schema_tmp : Queue MsgSchema
  pub config : Queue (Config V)
  pub proto_sock : ℕ
  pub proto_watch : Option ℕ

-- `struct proto_watch`.
pub record ProtoWatch : Type 0 where
  pub id : ℕ
  pub node_io : ℕ
  pub trust : ℕ

-- A node's `l_io`, and the trust that its disconnect handler was given.
pub record Channel : Type 0 where
  pub node_sock : ℕ
  pub trust : ℕ

module _ (e : Env) where
  pub record State : Type 0 where
    pub trust_map : List (ℕ × ℕ)
    pub heap : ℕ → Option (Trust e.Val)
    pub next : ℕ
    pub channels : List (ℕ × Channel)
    pub watches : List (ℕ × ProtoWatch)
    pub owner_uuid : Bytes
    pub world : e.World

  -- A call of src/msg.c.
  abbrev pub Action : Type 0 → Type 0
  Action A = M State A

  -- Reads a trust through a pointer.
  abbrev pub deref : ℕ → Action (Trust e.Val)
  deref a s = or_fault (s.heap a) dangling s

  -- Writes `cell` at an address; `none` frees it.
  abbrev pub write_at : ℕ → Option (Trust e.Val) → State → State
  write_at a cell s = record s { heap = λ b. if b == a then cell else s.heap b }

  -- Assigns members of the trust at an address.
  abbrev pub assign : ℕ → (Trust e.Val → Trust e.Val) → Action (Unit {0})
  assign a f = do t ← deref a; modify (write_at a (some (f t)))

  -- A call outside the repository, on the world.
  abbrev pub outside : {A : Type 0} → (e.World → A × e.World) → Action A
  outside f s = let (a, w) = f s.world in ok (a, record s { world = w })
