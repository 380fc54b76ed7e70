-- ===== src/Session/Steps.antt =====
-- The invariant of the objects of src/session.c, over each elementary change of the state.
use knot_service_source.Common.{
  ℕ, ◌+◌, ◌-◌, ◌<◌, ◌≡◌, inl, inr, Bool, Option, none, some, List, ◌∷◌, lookup, occurs, count_by,
  count_by_pos, if◌then◌else◌, ltb, ◌==◌, arith, Option-cases, Bool-cases,
}
use knot_service_source.Common.Queue.{entries}
use knot_service_source.Session.Driver.{Driver}
use knot_service_source.Session.State.{State, Session, Io, write_at}
use knot_service_source.Session.Invariant.{Inv, refs, target, io_session}

-- A channel that a session has counts as a pointer to it.
pub target_counted :
    (c a : ℕ) (m : List (ℕ × Io)) → target (lookup c m) ≡ some a → 0 < count_by io_session a m
target_counted c a m h = elim (Option-cases (lookup c m)) [
  | inl p ↦ absurd (cc)
  | inr (io, p) ↦ ground (arith, count_by_pos io_session c io m p)
]

module _ (d : Driver) (xs : List ℕ) (skip : Option ℕ) (s : State d) where
  -- What is pointed to is allocated.
  pub alive : (a : ℕ) → Inv d xs skip s → 0 < refs d s xs a → (t : Session) × (s.heap a ≡ some t)
  alive a v h = elim (Option-cases (s.heap a)) [
    | inl p ↦ absurd (ground (arith, v.counted a))
    | inr found ↦ found
  ]

  pub world-Inv : (w : d.World) → Inv d xs skip s → Inv d xs skip (record s { world = w })
  world-Inv w v = record {
    counted = v.counted;
    fresh = v.fresh;
    connected = v.connected;
    listed = v.listed;
    once = v.once;
    distinct = v.distinct;
    new_node = v.new_node;
    new_proto = v.new_proto;
  }

  -- The timeouts point to channels, which are not counted.
  pub timeouts-Inv :
      (b : Bool) (l : List ℕ)
      → Inv d xs skip s
      → Inv d xs skip (record s { destroying = b; timeouts = l })
  timeouts-Inv b l v = record {
    counted = v.counted;
    fresh = v.fresh;
    connected = v.connected;
    listed = v.listed;
    once = v.once;
    distinct = v.distinct;
    new_node = v.new_node;
    new_proto = v.new_proto;
  }

  module _ (a : ℕ) (t : Session) (at_a : s.heap a ≡ some t) where
    pub ref-Inv :
        Inv d xs skip s
        → Inv d (a ∷ xs) skip (write_at d a (some (record t { refs = t.refs + 1 })) s)
    ref-Inv v = record {
      counted = λ b. ground (arith, v.counted b);
      fresh = λ b h. ground (arith, v.fresh b h);
      connected = λ b c. ground (arith, v.connected b c);
      listed = λ b h. ground (arith, v.listed b h);
      once = v.once;
      distinct = v.distinct;
      new_node = v.new_node;
      new_proto = v.new_proto;
    }

    -- `session_unref`
    pub unref-Inv :
        Inv d (a ∷ xs) skip s
        → Inv d xs skip
            (write_at d a (if ltb 1 t.refs then some (record t { refs = t.refs - 1 }) else none) s)
    unref-Inv v = record {
      counted = λ b. ground (arith, v.counted b);
      fresh = λ b h. ground (arith, v.fresh b h);
      connected = λ b c. ground (arith, v.connected b c);
      listed = λ b h. elim (v.listed b h) [
        | inl p ↦ inl p
        | inr (c, p, q) ↦
            inr (c, ground (arith, v.counted b, target_counted c b s.node_channels q), q)
      ];
      once = v.once;
      distinct = v.distinct;
      new_node = v.new_node;
      new_proto = v.new_proto;
    }

    -- `on_proto_channel_disconnected`
    pub drop_proto-Inv :
        Inv d xs skip s → Inv d xs skip (write_at d a (some (record t { proto_channel = none })) s)
    drop_proto-Inv v = record {
      counted = λ b. ground (arith, v.counted b);
      fresh = λ b h. ground (arith, v.fresh b h);
      connected = λ b c. ground (arith, v.connected b c);
      listed = λ b h. ground (arith, v.listed b h);
      once = v.once;
      distinct = v.distinct;
      new_node = v.new_node;
      new_proto = v.new_proto;
    }

    -- `on_node_channel_disconnected`
    pub drop_node-Inv :
        skip ≡ some a
        → Inv d xs skip s
        → Inv d xs skip (write_at d a (some (record t { node_channel = none })) s)
    drop_node-Inv k v = record {
      counted = λ b. ground (arith, v.counted b);
      fresh = λ b h. ground (arith, v.fresh b h);
      connected = λ b c. ground (arith, v.connected b c);
      listed = λ b h. elim (v.listed b h) [
        | inl p ↦ inl p
        | inr (c, p, q) ↦ elim (Bool-cases (b == a)) [
          | inl same ↦ inl (ground arith)
          | inr other ↦ inr (c, ground arith, q)
        ]
      ];
      once = v.once;
      distinct = v.distinct;
      new_node = v.new_node;
      new_proto = v.new_proto;
    }

    -- `create_proto_channel` stores the code's pointer, and `connect_proto` the channel.
    pub set_proto-Inv :
        (c : ℕ)
        → target (lookup c s.proto_channels) ≡ some a
        → Inv d xs skip s
        → Inv d xs skip (write_at d a (some (record t { proto_channel = some c })) s)
    set_proto-Inv c p v = record {
      counted = λ b. ground (arith, v.counted b);
      fresh = λ b h. ground (arith, v.fresh b h);
      connected = λ b k. ground (arith, v.connected b k);
      listed = λ b h. ground (arith, v.listed b h);
      once = v.once;
      distinct = v.distinct;
      new_node = v.new_node;
      new_proto = v.new_proto;
    }

    -- The session that is not listed yet gets its node channel.
    pub set_node-Inv :
        (c : ℕ)
        → occurs a (entries s.session_list) ≡ 0
        → Inv d xs skip s
        → Inv d xs skip (write_at d a (some (record t { node_channel = some c })) s)
    set_node-Inv c z v = record {
      counted = λ b. ground (arith, v.counted b);
      fresh = λ b h. ground (arith, v.fresh b h);
      connected = λ b k. ground (arith, v.connected b k);
      listed = λ b h. ground (arith, v.listed b h);
      once = v.once;
      distinct = v.distinct;
      new_node = v.new_node;
      new_proto = v.new_proto;
    }
