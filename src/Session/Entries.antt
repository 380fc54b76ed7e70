-- ===== src/Session/Entries.antt =====
-- The invariant of the objects of src/session.c, over what is added to and taken from the tables.
use knot_service_source.Common.{
  occurs-without, without, ℕ, suc, ◌+◌, ◌≡◌, refl, inl, inr, Option, none, some, List, [], ◌∷◌,
  ◌++◌, lookup, erase, occurs, count_by-erase, lookup-erase_ne, erase-IsDistinct, if◌then◌else◌,
  ◌==◌, arith,
}
use knot_service_source.Common.Queue.{Queue, entries}
use knot_service_source.Session.Driver.{Driver}
use knot_service_source.Session.State.{State, Io}
use knot_service_source.Session.Channels.{queue_remove, with_blank}
use knot_service_source.Session.Node.{push_session}
use knot_service_source.Session.Invariant.{Inv, io_session, proto_of, HasNode}

occurs-snoc :
    (a b : ℕ) (l : List ℕ) → occurs b (l ++ a ∷ []) ≡ occurs b l + (if a == b then 1 else 0)
occurs-snoc a b [] = ground arith
occurs-snoc a b (x ∷ xs) = ground (arith, occurs-snoc a b xs)

module _ (d : Driver) (xs : List ℕ) (skip : Option ℕ) (s : State d) where
  -- `session_new`
  pub new-Inv : skip ≡ none → Inv d xs skip s → Inv d (s.next ∷ xs) skip (with_blank d s)
  new-Inv k v = record {
    counted = λ b. ground (arith, v.counted b, v.fresh s.next);
    fresh = λ b h. ground (arith, v.fresh b);
    connected = λ b c. ground (arith, v.connected b c);
    listed = λ b h. ground (arith, v.listed b h, v.fresh s.next);
    once = v.once;
    distinct = v.distinct;
    new_node = λ i h. v.new_node i (omega arith);
    new_proto = λ i h. v.new_proto i (omega arith);
  }

  pub proto_add-Inv :
      (io : Io)
      → Inv d (io.session ∷ xs) skip s
      → Inv d xs skip
          (record s { next = suc s.next; proto_channels = (s.next, io) ∷ s.proto_channels })
  proto_add-Inv io v = record {
    counted = λ b. ground (arith, v.counted b);
    fresh = λ b h. v.fresh b (omega arith);
    connected = λ b c p. ground (arith, v.connected b c p, v.new_proto s.next);
    listed = v.listed;
    once = v.once;
    distinct = v.distinct;
    new_node = λ k h. v.new_node k (omega arith);
    new_proto = λ k h. ground (arith, v.new_proto k);
  }

  pub node_add-Inv :
      (io : Io)
      → Inv d (io.session ∷ xs) skip s
      → Inv d xs skip
          (record s { next = suc s.next; node_channels = (s.next, io) ∷ s.node_channels })
  node_add-Inv io v = record {
    counted = λ b. ground (arith, v.counted b);
    fresh = λ b h. v.fresh b (omega arith);
    connected = v.connected;
    listed = λ b h. elim (v.listed b h) [
      | inl p ↦ inl p
      | inr (c, p, q) ↦ inr (c, p, ground (arith, v.new_node s.next))
    ];
    once = v.once;
    distinct = (v.new_node s.next (omega arith), v.distinct);
    new_node = λ k h. ground (arith, v.new_node k);
    new_proto = λ k h. v.new_proto k (omega arith);
  }

  -- A cloud channel is gone: its pointer is the code's now, and the session does not name it.
  pub proto_erase-Inv :
      (c : ℕ) (io : Io)
      → lookup c s.proto_channels ≡ some io
      → proto_of (s.heap io.session) ≡ none
      → Inv d xs skip s
      → Inv d (io.session ∷ xs) skip (record s { proto_channels = erase c s.proto_channels })
  proto_erase-Inv c io found none_left v = record {
    counted =
        λ b. ground (arith, v.counted b, count_by-erase io_session b c io s.proto_channels found);
    fresh = v.fresh;
    connected = λ b k p. ground (arith, v.connected b k p, lookup-erase_ne k c s.proto_channels);
    listed = v.listed;
    once = v.once;
    distinct = v.distinct;
    new_node = v.new_node;
    new_proto =
        λ k h. ground (arith, v.new_proto k h, v.new_proto c, lookup-erase_ne k c s.proto_channels);
  }

  -- A node channel is gone: its pointer is the code's now.
  pub node_erase-Inv :
      (c : ℕ) (io : Io)
      → lookup c s.node_channels ≡ some io
      → occurs io.session (entries s.session_list) ≡ 0
      → Inv d xs skip s
      → Inv d (io.session ∷ xs) skip (record s { node_channels = erase c s.node_channels })
  node_erase-Inv c io found unlisted v = record {
    counted =
        λ b. ground (arith, v.counted b, count_by-erase io_session b c io s.node_channels found);
    fresh = v.fresh;
    connected = v.connected;
    listed = λ b h. elim (v.listed b h) [
      | inl p ↦ inl p
      | inr (k, p, q) ↦ inr (k, p, ground (arith, lookup-erase_ne k c s.node_channels))
    ];
    once = v.once;
    distinct = erase-IsDistinct c s.node_channels v.distinct;
    new_node =
        λ k h. ground (arith, v.new_node k h, v.new_node c, lookup-erase_ne k c s.node_channels);
    new_proto = v.new_proto;
  }

  entries-remove : (a : ℕ) (q : Queue ℕ) → entries (queue_remove a q) ≡ without a (entries q)
  entries-remove a none = refl
  entries-remove a (some l) = refl

  entries-push : (a : ℕ) (q : Queue ℕ) → entries (push_session d a q) ≡ entries q ++ a ∷ []
  entries-push a none = refl
  entries-push a (some l) = refl

  -- `l_queue_remove`: the session that was exempt is listed no more.
  pub list_remove-Inv :
      (a : ℕ)
      → skip ≡ some a
      → Inv d xs skip s
      → Inv d xs none (record s { session_list = queue_remove a s.session_list })
        × (occurs a (entries (queue_remove a s.session_list)) ≡ 0)
  list_remove-Inv a k v = (
    record {
      counted = v.counted;
      fresh = v.fresh;
      connected = v.connected;
      listed = λ b h. ground (arith, v.listed b, removed b);
      once = λ b. ground (arith, v.once b, removed b);
      distinct = v.distinct;
      new_node = v.new_node;
      new_proto = v.new_proto;
    },
    ground (arith, removed a),
  )
    where
      removed :
          (b : ℕ)
          → occurs b (entries (queue_remove a s.session_list))
            ≡ (if a == b then 0 else occurs b (entries s.session_list))
      removed b =
          rw (entries-remove a s.session_list)
            (occurs-without a b (entries s.session_list) (v.once a))

  -- The session is listed: it has its node channel.
  pub list_push-Inv :
      (a : ℕ)
      → occurs a (entries s.session_list) ≡ 0
      → HasNode d s a
      → Inv d xs skip s
      → Inv d xs skip (record s { session_list = push_session d a s.session_list })
  list_push-Inv a z n v = record {
    counted = v.counted;
    fresh = v.fresh;
    connected = v.connected;
    listed = λ b h. ground (arith, v.listed b, pushed b, n);
    once = λ b. ground (arith, v.once b, pushed b);
    distinct = v.distinct;
    new_node = v.new_node;
    new_proto = v.new_proto;
  }
    where
      pushed :
          (b : ℕ)
          → occurs b (entries (push_session d a s.session_list))
            ≡ occurs b (entries s.session_list) + (if a == b then 1 else 0)
      pushed b = rw (entries-push a s.session_list) (occurs-snoc a b (entries s.session_list))
