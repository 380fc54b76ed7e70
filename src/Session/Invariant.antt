-- ===== src/Session/Invariant.antt =====
-- The invariant of the objects of src/session.c.
use knot_service_source.Common.{
  ℕ, ◌+◌, ◌≤◌, ◌<◌, ◌≡◌, ◌⊎◌, Option, none, some, List, lookup, count_by, occurs, IsDistinct,
}
use knot_service_source.Common.Queue.{entries}
use knot_service_source.Session.Driver.{Driver}
use knot_service_source.Session.State.{State, Session, Io}

-- A cell with `n` pointers to it.
abbrev pub Counted : Option Session → ℕ → Type 0
Counted none n = n ≡ 0
Counted (some t) n = (t.refs ≡ n) × (0 < n)

abbrev pub proto_of : Option Session → Option ℕ
proto_of none = none
proto_of (some t) = t.proto_channel

abbrev pub node_of : Option Session → Option ℕ
node_of none = none
node_of (some t) = t.node_channel

-- The session of a channel, if there is such a channel.
abbrev pub target : Option Io → Option ℕ
target none = none
target (some io) = some io.session

abbrev pub io_session : Io → ℕ
io_session io = io.session

module _ (d : Driver) where
  -- The counted pointers to a session: one for each channel, and those that the running code holds,
  -- `xs`.
  abbrev pub refs : State d → List ℕ → ℕ → ℕ
  refs s xs a =
      count_by io_session a s.node_channels + count_by io_session a s.proto_channels + occurs a xs

  -- The session has a node channel that exists.
  abbrev pub HasNode : State d → ℕ → Type 0
  HasNode s a =
      (c : ℕ) × (node_of (s.heap a) ≡ some c) × (target (lookup c s.node_channels) ≡ some a)

-- `skip` is a session whose node channel is on its way out.
pub record Inv (d : Driver) (xs : List ℕ) (skip : Option ℕ) (s : State d) : Type 0 where
  pub counted : (a : ℕ) → Counted (s.heap a) (refs d s xs a)
  pub fresh : (a : ℕ) → s.next ≤ a → s.heap a ≡ none
  pub connected :
      (a c : ℕ) → proto_of (s.heap a) ≡ some c → target (lookup c s.proto_channels) ≡ some a
  pub listed : (a : ℕ) → 0 < occurs a (entries s.session_list) → (skip ≡ some a) ⊎ HasNode d s a
  pub once : (a : ℕ) → occurs a (entries s.session_list) ≤ 1
  pub new_node : (k : ℕ) → s.next ≤ k → lookup k s.node_channels ≡ none
  pub new_proto : (k : ℕ) → s.next ≤ k → lookup k s.proto_channels ≡ none
  pub distinct : IsDistinct s.node_channels
