-- ===== src/Msg/Lifetime/Steps.antt =====
-- The invariant of the objects, over each elementary change of the state.
use knot_service_source.Common.{
  ℕ, suc, ◌+◌, ◌-◌, ◌<◌, ◌≡◌, inl, inr, Option, none, some, List, ◌∷◌, lookup, erase,
  count_by-erase, erase-IsDistinct, lookup-erase_ne, lookup-erase_self, if◌then◌else◌, ltb, arith,
  Option-cases,
}
use knot_service_source.Env.{Env}
use knot_service_source.Msg.State.{State, Trust, ProtoWatch, Channel, write_at}
use knot_service_source.Msg.Lifetime.Invariant.{
  Inv, refs, target, trust_id, channel_trust, watch_trust,
}

module _ (e : Env) (xs : List ℕ) (skip : Option ℕ) (s : State e) where
  -- What is pointed to is allocated.
  pub alive :
      (a : ℕ) → Inv e xs skip s → 0 < refs e s xs a → (t : Trust e.Val) × (s.heap a ≡ some t)
  alive a v h = elim (Option-cases (s.heap a)) [
    | inl p ↦ absurd (ground (arith, v.counted a))
    | inr found ↦ found
  ]

  pub world-Inv : (w : e.World) → Inv e xs skip s → Inv e xs skip (record s { world = w })
  world-Inv w v = record {
    counted = v.counted;
    fresh = v.fresh;
    distinct = v.distinct;
    watched = v.watched;
    channelled = v.channelled;
    new_channel = v.new_channel;
    new_watch = v.new_watch;
  }

  module _ (a : ℕ) (t : Trust e.Val) (at_a : s.heap a ≡ some t) where
    -- Members other than the count and the watch may change.
    pub write-Inv :
        (t' : Trust e.Val)
        → t'.refs ≡ t.refs
        → t'.proto_watch ≡ t.proto_watch
        → Inv e xs skip s
        → Inv e xs skip (write_at e a (some t') s)
    write-Inv t' r p v = record {
      counted = λ b. ground (arith, v.counted b);
      fresh = λ b h. ground (arith, v.fresh b h);
      distinct = v.distinct;
      watched = λ b h. ground (arith, v.watched b h);
      channelled = v.channelled;
      new_channel = v.new_channel;
      new_watch = v.new_watch;
    }

    -- `trust_ref`
    pub ref-Inv :
        (t' : Trust e.Val)
        → t'.refs ≡ t.refs + 1
        → t'.proto_watch ≡ t.proto_watch
        → Inv e xs skip s
        → Inv e (a ∷ xs) skip (write_at e a (some t') s)
    ref-Inv t' r p v = record {
      counted = λ b. ground (arith, v.counted b);
      fresh = λ b h. ground (arith, v.fresh b h);
      distinct = v.distinct;
      watched = λ b h. ground (arith, v.watched b h);
      channelled = v.channelled;
      new_channel = v.new_channel;
      new_watch = v.new_watch;
    }

    -- `trust_unref`
    pub unref-Inv :
        Inv e (a ∷ xs) skip s
        → Inv e xs skip
            (write_at e a (if ltb 1 t.refs then some (record t { refs = t.refs - 1 }) else none) s)
    unref-Inv v = record {
      counted = λ b. ground (arith, v.counted b);
      fresh = λ b h. ground (arith, v.fresh b h);
      distinct = v.distinct;
      watched = λ b h. ground (arith, v.watched b h);
      channelled = v.channelled;
      new_channel = v.new_channel;
      new_watch = v.new_watch;
    }

    -- The trust gets its watch.
    pub set_watch-Inv :
        (h : ℕ)
        → target (lookup h s.watches) ≡ some a
        → Inv e xs skip s
        → Inv e xs skip (write_at e a (some (record t { proto_watch = some h })) s)
    set_watch-Inv h w v = record {
      counted = λ b. ground (arith, v.counted b);
      fresh = λ b k. ground (arith, v.fresh b k);
      distinct = v.distinct;
      watched = λ b k. ground (arith, v.watched b k);
      channelled = v.channelled;
      new_channel = v.new_channel;
      new_watch = v.new_watch;
    }

  -- `trust_new`
  pub new-Inv :
      (t : Trust e.Val)
      → t.refs ≡ 1
      → t.proto_watch ≡ none
      → Inv e xs skip s
      → Inv e (s.next ∷ xs) skip (record (write_at e s.next (some t) s) { next = suc s.next })
  new-Inv t r p v = record {
    counted = λ b. ground (arith, v.counted b, v.fresh s.next);
    fresh = λ b h. ground (arith, v.fresh b);
    distinct = v.distinct;
    watched = λ b h. ground (arith, v.watched b h);
    channelled = v.channelled;
    new_channel = λ k h. v.new_channel k (omega arith);
    new_watch = λ k h. v.new_watch k (omega arith);
  }

  -- An entry of `trust_map` is taken out: its pointer is the code's now.
  pub map_erase-Inv :
      (sock a : ℕ)
      → lookup sock s.trust_map ≡ some a
      → Inv e xs skip s
      → Inv e (a ∷ xs) skip (record s { trust_map = erase sock s.trust_map })
  map_erase-Inv sock a found v = record {
    counted = λ b. ground (arith, v.counted b, count_by-erase trust_id b sock a s.trust_map found);
    fresh = v.fresh;
    distinct = erase-IsDistinct sock s.trust_map v.distinct;
    watched = v.watched;
    channelled = λ k b h. ground (
      arith,
      v.channelled k b,
      lookup-erase_ne k sock s.trust_map,
      lookup-erase_self sock s.trust_map v.distinct,
    );
    new_channel = v.new_channel;
    new_watch = v.new_watch;
  }

  -- `trust_map_add`
  pub map_add-Inv :
      (sock a : ℕ)
      → skip ≡ none
      → lookup sock s.trust_map ≡ none
      → Inv e (a ∷ xs) skip s
      → Inv e xs (some sock) (record s { trust_map = (sock, a) ∷ s.trust_map })
  map_add-Inv sock a none_skipped missing v = record {
    counted = λ b. ground (arith, v.counted b);
    fresh = v.fresh;
    distinct = (missing, v.distinct);
    watched = v.watched;
    channelled = λ k b h. ground (arith, v.channelled k b);
    new_channel = v.new_channel;
    new_watch = v.new_watch;
  }

  -- `create_device_watch` stores its pointer.
  pub watch_add-Inv :
      (w : ProtoWatch)
      → Inv e (w.trust ∷ xs) skip s
      → Inv e xs skip (record s { next = suc s.next; watches = (s.next, w) ∷ s.watches })
  watch_add-Inv w v = record {
    counted = λ b. ground (arith, v.counted b);
    fresh = λ b h. v.fresh b (omega arith);
    distinct = v.distinct;
    watched = λ b h p. ground (arith, v.watched b h p, v.new_watch s.next);
    channelled = v.channelled;
    new_channel = λ k h. v.new_channel k (omega arith);
    new_watch = λ k h. ground (arith, v.new_watch k);
  }

  -- `create_node_channel` stores its pointer.
  pub channel_add-Inv :
      (sock a : ℕ)
      → lookup sock s.trust_map ≡ some a
      → skip ≡ some sock
      → Inv e (a ∷ xs) skip s
      → Inv e xs none (record s {
        next = suc s.next;
        channels = (s.next, record { node_sock = sock; trust = a }) ∷ s.channels;
      })
  channel_add-Inv sock a mapped pending v = record {
    counted = λ b. ground (arith, v.counted b);
    fresh = λ b h. v.fresh b (omega arith);
    distinct = v.distinct;
    watched = v.watched;
    channelled = λ k b h. elim (v.channelled k b h) [
      | inl p ↦ inr (s.next, ground arith)
      | inr (c, p) ↦ inr (c, ground (arith, v.new_channel s.next))
    ];
    new_channel = λ k h. ground (arith, v.new_channel k);
    new_watch = λ k h. v.new_watch k (omega arith);
  }

  -- A channel is gone: its pointer is the code's now.
  pub channel_erase-Inv :
      (c : ℕ) (ch : Channel)
      → lookup c s.channels ≡ some ch
      → lookup ch.node_sock s.trust_map ≡ none
      → Inv e xs skip s
      → Inv e (ch.trust ∷ xs) skip (record s { channels = erase c s.channels })
  channel_erase-Inv c ch found unmapped v = record {
    counted =
        λ b. ground (arith, v.counted b, count_by-erase channel_trust b c ch s.channels found);
    fresh = v.fresh;
    distinct = v.distinct;
    watched = v.watched;
    channelled = λ k b h. elim (v.channelled k b h) [
      | inl p ↦ inl p
      | inr (d, p) ↦ inr (d, ground (arith, lookup-erase_ne d c s.channels))
    ];
    new_channel =
        λ k h. ground (arith, v.new_channel k h, v.new_channel c, lookup-erase_ne k c s.channels);
    new_watch = v.new_watch;
  }

  -- The destroy callback of a watch: the trust forgets it, and its pointer is the code's now.
  pub watch_erase-Inv :
      (h : ℕ) (w : ProtoWatch) (t : Trust e.Val)
      → lookup h s.watches ≡ some w
      → s.heap w.trust ≡ some t
      → Inv e xs skip s
      → Inv e
          (w.trust ∷ xs)
          skip
          (record (write_at e w.trust (some (record t { proto_watch = none })) s) {
            watches = erase h s.watches;
          })
  watch_erase-Inv h w t found at_w v = record {
    counted = λ b. ground (arith, v.counted b, count_by-erase watch_trust b h w s.watches found);
    fresh = λ b k. ground (arith, v.fresh b k);
    distinct = v.distinct;
    watched = λ b k p. ground (arith, v.watched b k, lookup-erase_ne k h s.watches);
    channelled = v.channelled;
    new_channel = v.new_channel;
    new_watch =
        λ k p. ground (arith, v.new_watch k p, v.new_watch h, lookup-erase_ne k h s.watches);
  }
