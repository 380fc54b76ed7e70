-- ===== src/Start/Servers.antt =====
-- src/node.c: the servers that nodes connect to, and src/proto.c: the choice of the cloud's driver.
use knot_service_source.Common.{
  ℕ, ℤ, pos, negsuc, is_neg, Bool, Option, none, some, List, [], ◌∷◌, ◌++◌, if◌then◌else◌, bytes_eq,
}
use knot_service_source.Env.Messages.{Bytes}

-- The operations of the `struct node_ops` of a driver, which is a number.
pub record Radio : Type 1 where
  pub World : Type 0
  pub is_serial : ℕ → Bool
  pub load_config : Bytes → World → World
  pub probe : ℕ → World → ℤ × World
  pub listen : ℕ → World → ℤ × World
  pub remove : ℕ → World → World

module _ (r : Radio) where
  -- The accept channels, driver and server socket; and the calls of `remove`, in order.
  pub record State : Type 0 where
    pub accept_channel_list : List (ℕ × ℤ)
    pub removed : List ℕ
    pub world : r.World

  unfoldable pub stop_node_server : ℕ → State → State
  stop_node_server ops s = record s {
    removed = s.removed ++ ops ∷ [];
    world = r.remove ops s.world;
  }

  -- A driver that listens, or not: then it is removed again.
  unfoldable pub listen_on : ℕ → State → ℤ × State
  unfolding stop_node_server
  listen_on ops s =
      let (server_socket, w) = r.listen ops s.world in
      let s' : State = record s { world = w } in
      (server_socket, if is_neg server_socket then stop_node_server ops s' else s')

  unfoldable pub probe_server : ℕ → State → ℤ × State
  unfolding listen_on
  probe_server ops s =
      let (err, w) = r.probe ops s.world in
      let s' : State = record s { world = w } in
      let listening = listen_on ops s' in if is_neg err then (err, s') else listening

  -- The serial line is passed over where it is not given.
  unfoldable pub start_node_server : Option Bytes → ℕ → State → ℤ × State
  unfolding probe_server
  start_node_server none ops s = if r.is_serial ops then (negsuc 4, s) else probe_server ops s
  start_node_server (some tty) ops s =
      if r.is_serial ops
      then probe_server ops (record s { world = r.load_config tty s.world })
      else probe_server ops s

  -- The channel of a server that listens.
  abbrev pub create_accept_channel : ℕ → ℤ → State → State
  create_accept_channel ops server_socket s = record s {
    accept_channel_list = s.accept_channel_list ++ (ops, server_socket) ∷ [];
  }

  -- A server that listens gets its channel.
  unfoldable pub accept_on : ℕ → ℤ × State → State
  accept_on ops (server_socket, s) =
      if is_neg server_socket then s else create_accept_channel ops server_socket s

  unfoldable pub start_all : Option Bytes → List ℕ → State → State
  unfolding start_node_server accept_on
  start_all tty [] s = s
  start_all tty (ops ∷ node_ops) s =
      start_all tty node_ops (accept_on ops (start_node_server tty ops s))

  unfoldable pub node_start : Option Bytes → List ℕ → State → ℤ × State
  unfolding start_all
  node_start tty node_ops s =
      (pos 0, start_all tty node_ops (record s { accept_channel_list = [] }))

  unfoldable pub stop_all_node_servers : List ℕ → State → State
  unfolding stop_node_server
  stop_all_node_servers [] s = s
  stop_all_node_servers (ops ∷ node_ops) s = stop_all_node_servers node_ops (stop_node_server ops s)

  unfoldable pub node_stop : List ℕ → State → State
  unfolding stop_all_node_servers
  node_stop node_ops s = record (stop_all_node_servers node_ops s) { accept_channel_list = [] }

-- `get_proto_ops`: the last driver of that name, over a table of names and drivers.
unfoldable pub get_proto_ops : Bytes → List (Bytes × ℕ) → Option ℕ → Option ℕ
get_proto_ops name [] selected = selected
get_proto_ops name ((ops_name, ops) ∷ proto_ops) selected =
    get_proto_ops name proto_ops (if bytes_eq name ops_name then some ops else selected)

-- `probe` is the driver's; `proto` is the static variable, and the result what the caller is given.
unfoldable pub proto_start :
    {W : Type 0} → Bytes → List (Bytes × ℕ) → (ℕ → W → ℤ × W) → W → ℤ × Option ℕ × W
unfolding get_proto_ops
proto_start name proto_ops probe w = elim (get_proto_ops name proto_ops none) [
  | none ↦ (negsuc 21, none, w)
  | some proto ↦
      let (err, w') = probe proto w in (if is_neg err then negsuc 4 else pos 0, some proto, w')
]
