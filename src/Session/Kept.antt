-- ===== src/Session/Kept.antt =====
-- The invariant of the objects, over the channel operations of src/session.c.
use knot_service_source.Common.{
  ℕ, suc, ◌+◌, ◌≡◌, refl, ap, ◌∙◌, inl, inr, Bool, true, false, Option, none, some, List, [], ◌∷◌,
  lookup, erase, ℤ, pos, negsuc, arith, Option-cases, count_by_pos,
}
use knot_service_source.Common.Monad.{ok, modify, ◌>>◌}
use knot_service_source.Common.Hoare.{Returns, Returns->>=, Returns-ok->>=}
use knot_service_source.Session.Driver.{Driver, Lawful}
use knot_service_source.Session.State.{State, Session, Io, write_at, assign, deref_node}
use knot_service_source.Session.Channels.{
  session_ref, session_unref, on_proto_channel_disconnected, on_proto_channel_destroyed,
  create_proto_channel, proto_connected, connect_proto, disconnect_proto,
  on_node_channel_disconnected, on_node_channel_destroyed, disconnect_if, end_node_channel,
  end_proto_channel, queue_remove,
}
use knot_service_source.Session.Invariant.{Inv, target, io_session}
use knot_service_source.Session.Steps.{
  alive, world-Inv, ref-Inv, unref-Inv, drop_proto-Inv, drop_node-Inv, set_proto-Inv,
}
use knot_service_source.Session.Entries.{
  proto_add-Inv, proto_erase-Inv, node_erase-Inv, list_remove-Inv,
}

module _ (d : Driver) (l : Lawful d) where
  -- The invariant, and what the driver keeps of the world.
  abbrev pub Good : List ℕ → Option ℕ → State d → Type 0
  Good xs skip s = Inv d xs skip s × l.Valid s.world

  pub pure-Returns :
      {A : Type 0} (P : A → State d → Type 0) (a : A) (s : State d) → P a s → Returns P (ok (a, s))
  unfolding Returns
  pure-Returns P a s p = p

  pub node_alive :
      (xs : List ℕ) (skip : Option ℕ) (s : State d) (c : ℕ) (io : Io)
      → Inv d xs skip s
      → lookup c s.node_channels ≡ some io
      → (t : Session) × (s.heap io.session ≡ some t)
  node_alive xs skip s c io v h =
      alive d xs skip s io.session v
        (ground (arith, count_by_pos io_session c io s.node_channels h))

  pub proto_alive :
      (xs : List ℕ) (skip : Option ℕ) (s : State d) (c : ℕ) (io : Io)
      → Inv d xs skip s
      → lookup c s.proto_channels ≡ some io
      → (t : Session) × (s.heap io.session ≡ some t)
  proto_alive xs skip s c io v h =
      alive d xs skip s io.session v
        (ground (arith, count_by_pos io_session c io s.proto_channels h))

  -- The channel that a session names exists.
  pub target-some :
      (c a : ℕ) (m : List (ℕ × Io))
      → target (lookup c m) ≡ some a
      → (io : Io) × (lookup c m ≡ some io) × (io.session ≡ a)
  target-some c a m p = elim (Option-cases (lookup c m)) [
    | inl q ↦ ground arith
    | inr (io, q) ↦ (io, q, ground arith)
  ]

  abbrev pub timers : State d → List ℕ × Bool
  timers s = (s.timeouts, s.destroying)

  abbrev pub SameTimers : State d → State d → Type 0
  SameTimers s s' = timers s' ≡ timers s

  -- What a call leaves as it is.
  abbrev pub SameNodes : State d → State d → Type 0
  SameNodes s s' =
      SameTimers s s' × (s'.node_channels ≡ s.node_channels) × (s'.session_list ≡ s.session_list)

  abbrev pub Allocated : ℕ → State d → Type 0
  Allocated a s = (u : Session) × (s.heap a ≡ some u)

  -- A session whose node channel ends is exempt from what is listed.
  pub skip-Inv : (xs : List ℕ) (a : ℕ) (s : State d) → Inv d xs none s → Inv d xs (some a) s
  skip-Inv xs a s v = record {
    counted = v.counted;
    fresh = v.fresh;
    connected = v.connected;
    listed = λ b h. elim (v.listed b h) [ inl p ↦ absurd (cc) | inr n ↦ inr n ];
    once = v.once;
    distinct = v.distinct;
    new_node = v.new_node;
    new_proto = v.new_proto;
  }

  written : (a : ℕ) (cell : Option Session) (s : State d) → (write_at d a cell s).heap a ≡ cell
  written a cell s = ground arith

  pub unref-Returns :
      (xs : List ℕ) (skip : Option ℕ) (a : ℕ) (s : State d)
      → Good (a ∷ xs) skip s
      → Returns (λ _ s'. Good xs skip s' × SameNodes s s') (session_unref d a s)
  unfolding Returns session_unref
  unref-Returns xs skip a s (v, w) =
      let (t, h) = alive d (a ∷ xs) skip s a v (ground arith) in
      rw (h, session_unref, Returns) ((unref-Inv d xs skip s a t h v, w), (refl, refl, refl))

  -- The rest of `connect_proto`: the session gets a channel, or the error is returned.
  proto_connected-Returns :
      (xs : List ℕ) (skip : Option ℕ) (a : ℕ) (t : Session) (s : State d) (r : ℤ)
      → s.heap a ≡ some t
      → Good xs skip s
      → Returns
          (λ _ s'. Good xs skip s' × SameNodes s s' × Allocated a s')
          (proto_connected d a r s)
  unfolding Returns proto_connected create_proto_channel session_ref
  proto_connected-Returns xs skip a t s (negsuc n) p (v, w) = ((v, w), (refl, refl, refl), (t, p))
  proto_connected-Returns xs skip a t s (pos n) p (v, w) =
      let u = record t { refs = t.refs + 1 } in
      let s' = record (write_at d a (some u) s) {
        next = suc s.next;
        proto_channels = (s.next, record { fd = n; session = a }) ∷ s.proto_channels;
      } in
      rw (p, written a (some u) s, Returns)
        (
          (
            set_proto-Inv d xs skip s' a u (written a (some u) s) s.next (ground arith) (
                proto_add-Inv d xs skip (write_at d a (some u) s) (record { fd = n; session = a })
                  (ref-Inv d xs skip s a t p v)),
            w,
          ),
          (refl, refl, refl),
          (
            record u { proto_channel = some s.next },
            written a (some (record u { proto_channel = some s.next })) s',
          ),
        )

  -- A session that the code or a channel points to gets a cloud channel, or the driver's error.
  pub connect_proto-Returns :
      (xs : List ℕ) (skip : Option ℕ) (a : ℕ) (t : Session) (s : State d)
      → s.heap a ≡ some t
      → Good xs skip s
      → Returns (λ _ s'. Good xs skip s' × SameNodes s s' × Allocated a s') (connect_proto d a s)
  unfolding connect_proto
  connect_proto-Returns xs skip a t s p (v, w) =
      let (r, w') = d.connect s.world in
      proto_connected-Returns xs skip a t (record s { world = w' }) r p
        (world-Inv d xs skip s w' v, l.connect-Valid s.world w)

  -- The session's descriptor is closed, if it has a cloud channel.
  disconnect_proto-Returns :
      (xs : List ℕ) (skip : Option ℕ) (a : ℕ) (t : Session) (s : State d)
      → s.heap a ≡ some t
      → Good xs skip s
      → Returns
          (λ _ s'. Good xs skip s' × SameNodes s s' × (s'.heap ≡ s.heap))
          (disconnect_proto d a s)
  unfolding Returns disconnect_proto
  disconnect_proto-Returns xs skip a t s p (v, w) = elim (Option-cases t.proto_channel) [
    | inl q ↦ rw (p, q, disconnect_proto, Returns) ((v, w), (refl, refl, refl), refl)
    | inr (c, q) ↦
        let (io, r, e) = target-some c a s.proto_channels (v.connected a c (rw (p) q)) in
        rw (p, q, r, disconnect_proto, Returns)
          (
            (world-Inv d xs skip s (d.close io.fd s.world) v, l.close-Valid io.fd s.world w),
            (refl, refl, refl),
            refl,
          )
  ]

  node_dropped-Returns :
      (xs : List ℕ) (a : ℕ) (t : Session) (s s' : State d)
      → s.heap a ≡ some t
      → Good xs (some a) s' × SameNodes s s' × (s'.heap ≡ s.heap)
      → Returns
          (λ _ s''. Good xs (some a) s'' × SameNodes s s'')
          (assign d a (λ u. record u { node_channel = none }) s')
  unfolding Returns
  node_dropped-Returns xs a t s s' p ((v, w), (k, m, n), h) =
      let p' = ap (λ f. f a) h ∙ p in
      rw (p', Returns) ((drop_node-Inv d xs (some a) s' a t p' refl v, w), (k, m, n))

  on_node_channel_disconnected-Returns :
      (xs : List ℕ) (a : ℕ) (t : Session) (s : State d)
      → s.heap a ≡ some t
      → Good xs (some a) s
      → Returns (λ _ s'. Good xs (some a) s' × SameNodes s s') (on_node_channel_disconnected d a s)
  unfolding on_node_channel_disconnected
  on_node_channel_disconnected-Returns xs a t s p g =
      Returns->>= (λ _ s'. Good xs (some a) s' × SameNodes s s' × (s'.heap ≡ s.heap))
        (λ _ s'. Good xs (some a) s' × SameNodes s s') (disconnect_proto d a) _ s
        (disconnect_proto-Returns xs (some a) a t s p g)
        λ _ s' q. node_dropped-Returns xs a t s s' p q

  disconnect_if-Returns :
      (b : Bool) (xs : List ℕ) (a : ℕ) (t : Session) (s : State d)
      → s.heap a ≡ some t
      → Good xs (some a) s
      → Returns (λ _ s'. Good xs (some a) s' × SameNodes s s') (disconnect_if d b a s)
  disconnect_if-Returns true xs a t s p g = on_node_channel_disconnected-Returns xs a t s p g
  disconnect_if-Returns false xs a t s p g =
      pure-Returns (λ _ s'. Good xs (some a) s' × SameNodes s s') tt s (g, (refl, refl, refl))

  -- What the end of the node channel `c` leaves in the queue and among the channels.
  abbrev pub Ended : ℕ → ℕ → State d → State d → Type 0
  Ended c a s s' =
      SameTimers s s'
      × (s'.node_channels ≡ erase c s.node_channels)
      × (s'.session_list ≡ queue_remove a s.session_list)

  -- The destroy callback of a node channel, and the channel is gone.
  node_gone-Returns :
      (c : ℕ) (io : Io) (s s' : State d)
      → lookup c s.node_channels ≡ some io
      → Good [] (some io.session) s' × SameNodes s s'
      → Returns
          (λ _ s''. Good [] none s'' × Ended c io.session s s'')
          ((on_node_channel_destroyed d io.session
              >> modify (λ u. record u { node_channels = erase c u.node_channels }))
            s')
  unfolding Returns on_node_channel_destroyed session_unref
  node_gone-Returns c io s s' found ((v, w), (k, m, n)) =
      let found' = ap (lookup c) m ∙ found in
      let (t, h) = node_alive [] (some io.session) s' c io v found' in
      let (v', z) = list_remove-Inv d [] (some io.session) s' io.session refl v in
      let s1 = record s' { session_list = queue_remove io.session s'.session_list } in
      let s2 = record s1 { node_channels = erase c s'.node_channels } in
      rw (h, Returns)
        (
          (unref-Inv d [] none s2 io.session t h (node_erase-Inv d [] none s1 c io found' z v'), w),
          (k, ap (erase c) m, ap (queue_remove io.session) n),
        )

  pub end_node_channel-Returns :
      (b : Bool) (c : ℕ) (io : Io) (s : State d)
      → lookup c s.node_channels ≡ some io
      → Good [] none s
      → Returns (λ _ s'. Good [] none s' × Ended c io.session s s') (end_node_channel d b c s)
  unfolding end_node_channel
  end_node_channel-Returns b c io s found (v, w) =
      let (t, h) = node_alive [] none s c io v found in
      Returns-ok->>= (λ _ s'. Good [] none s' × Ended c io.session s s') (deref_node d c) _ io s s
        (rw (found) refl)
        (Returns->>= (λ _ s'. Good [] (some io.session) s' × SameNodes s s')
          (λ _ s'. Good [] none s' × Ended c io.session s s') (disconnect_if d b io.session)
          (λ _.
            on_node_channel_destroyed d io.session
            >> modify (λ u. record u { node_channels = erase c u.node_channels }))
          s (disconnect_if-Returns b [] io.session t s h (skip-Inv [] io.session s v, w))
          λ _ s' q. node_gone-Returns c io s s' found q)

  -- The cloud hangs up on a session.
  pub end_proto_channel-Returns :
      (c : ℕ) (io : Io) (s : State d)
      → lookup c s.proto_channels ≡ some io
      → Good [] none s
      → Returns (λ _ s'. Good [] none s' × SameNodes s s') (end_proto_channel d c s)
  unfolding Returns end_proto_channel on_proto_channel_disconnected on_proto_channel_destroyed
      session_unref
  end_proto_channel-Returns c io s found (v, w) =
      let (t, h) = proto_alive [] none s c io v found in
      let u = record t { proto_channel = none } in
      let s1 = write_at d io.session (some u) s in
      let s2 = record s1 { proto_channels = erase c s.proto_channels } in
      let left = written io.session (some u) s in
      rw (found, h, left, end_proto_channel, Returns)
        (
          (
            unref-Inv d [] none s2 io.session u left (
                proto_erase-Inv d [] none s1 c io found (rw (left) refl)
                  (drop_proto-Inv d [] none s io.session t h v)),
            w,
          ),
          (refl, refl, refl),
        )
