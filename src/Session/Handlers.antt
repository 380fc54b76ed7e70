-- ===== src/Session/Handlers.antt =====
-- The invariant of the objects, over a node's data and the life of the sessions in src/session.c.
use knot_service_source.Common.{
  ℕ, zero, suc, ◌≡◌, refl, sym, ap, ◌∙◌, inl, inr, true, none, some, List, [], ◌∷◌, lookup, occurs,
  ℤ, pos, negsuc, arith, Option-cases, Bool-cases, ltb, if◌then◌else◌,
}
use knot_service_source.Common.Queue.{Queue, entries}
use knot_service_source.Common.Monad.{
  Result, ok, fault, dangling, null_pointer, uninitialised, freed_channel, freed_entry, pure, gets,
  fail, ◌>>=◌,
}
use knot_service_source.Common.Hoare.{
  ok->>=, Holds, Holds->>=, Returns, Returns-ok, Returns->>=, Returns-weaken, Returns-Holds,
}
use knot_service_source.Env.Messages.{Bytes}
use knot_service_source.Session.Driver.{Driver, Lawful}
use knot_service_source.Session.State.{State, Session, Io, write_at, with_world}
use knot_service_source.Session.Channels.{
  queue_remove, blank, with_blank, session_new, session_unref, connect_proto, end_node_channel,
  destroy_node_channel,
}
use knot_service_source.Session.Node.{
  on_node_channel_data_error, give_up, reply_with, answer, reconnected, received,
  on_node_channel_data, create_node_channel, session_connected, session_create, session_destroy,
  destroy_each, session_destroy_all, opdu_size,
}
use knot_service_source.Session.Invariant.{Inv, node_of}
use knot_service_source.Session.Steps.{alive, world-Inv, timeouts-Inv, set_node-Inv}
use knot_service_source.Session.Entries.{new-Inv, node_add-Inv, list_push-Inv}
use knot_service_source.Session.Kept.{
  Good, Ended, SameNodes, Allocated, node_alive, target-some, unref-Returns, connect_proto-Returns,
  end_node_channel-Returns,
}

queue_remove-head :
    (a b : ℕ) (rest : List ℕ) (q : Queue ℕ)
    → entries q ≡ a ∷ rest
    → b ≡ a
    → entries (queue_remove b q) ≡ rest
queue_remove-head a b rest none p e = absurd (cc)
queue_remove-head a b rest (some xs) p e = rw (p, e) (ground arith)

module _ (d : Driver) (l : Lawful d) where
  -- The invariant between two events.
  abbrev pub Steady : State d → Type 0
  Steady s = Good d l [] none s

  give_up-Holds : (c : ℕ) (s : State d) → Steady s → Holds (λ _ s'. Steady s') (give_up d c s)
  unfolding Holds give_up on_node_channel_data_error
  give_up-Holds c s (v, w) = elim (Bool-cases s.destroying) [
    | inl p ↦ rw (p, give_up, Holds) (timeouts-Inv d [] none s true s.timeouts v, w)
    | inr p ↦ rw (p, give_up, Holds) (timeouts-Inv d [] none s true (c ∷ s.timeouts) v, w)
  ]

  reply_with-Holds :
      (c fd : ℕ) (r : ℤ × d.Reply) (s : State d)
      → Steady s
      → Holds (λ _ s'. Steady s') (reply_with d c fd r s)
  unfolding Holds reply_with
  reply_with-Holds c fd (negsuc n, opdu) s g = give_up-Holds c s g
  reply_with-Holds c fd (pos zero, opdu) s g = g
  reply_with-Holds c fd (pos (suc n), opdu) s (v, w) = (
    world-Inv d [] none s (d.send fd opdu (suc n) s.world).1 v,
    l.send-Valid fd opdu (suc n) s.world w,
  )

  -- A call outside that may fault keeps the objects.
  pub with_world-Holds :
      {A : Type 0} (s : State d) (r : Result (A × d.World))
      → Steady s
      → Holds (λ _ w'. l.Valid w') r
      → Holds (λ _ s'. Steady s') (with_world d s r)
  unfolding Holds
  with_world-Holds s (ok (a, w')) (v, w) h = (world-Inv d [] none s w' v, h)
  with_world-Holds s (fault dangling) g h = h
  with_world-Holds s (fault null_pointer) g h = h
  with_world-Holds s (fault uninitialised) g h = h
  with_world-Holds s (fault freed_channel) g h = h
  with_world-Holds s (fault freed_entry) g h = h

  exchange-Holds :
      (c fd proto : ℕ) (data_in : Bytes) (s : State d)
      → Steady s
      → Holds
          (λ _ s'. Steady s')
          (((λ s'. with_world d s' (d.on_data fd proto data_in opdu_size s'.world))
              >>= reply_with d c fd)
            s)
  exchange-Holds c fd proto data_in s (v, w) =
      Holds->>= (λ _ s'. Steady s') (λ _ s'. Steady s')
        (λ s'. with_world d s' (d.on_data fd proto data_in opdu_size s'.world)) (reply_with d c fd)
        s
        (with_world-Holds s (d.on_data fd proto data_in opdu_size s.world) (v, w)
          (l.on_data-Valid fd proto data_in opdu_size s.world w))
        λ r s' g. reply_with-Holds c fd r s' g

  answer-Holds :
      (c fd a : ℕ) (t : Session) (data_in : Bytes) (s : State d)
      → s.heap a ≡ some t
      → Steady s
      → Holds (λ _ s'. Steady s') (answer d c fd a data_in s)
  unfolding Holds answer
  answer-Holds c fd a t data_in s p (v, w) = elim (Option-cases t.proto_channel) [
    | inl q ↦ rw (p, q, answer, Holds) tt
    | inr (k, q) ↦
        let (io, r, e) = target-some d l k a s.proto_channels (v.connected a k (rw (p) q)) in
        rw (p, q, r, answer, Holds) (exchange-Holds c fd io.fd data_in s (v, w))
  ]

  reconnected-Holds :
      (c fd a : ℕ) (t : Session) (data_in : Bytes) (err : ℤ) (s : State d)
      → s.heap a ≡ some t
      → Steady s
      → Holds (λ _ s'. Steady s') (reconnected d c fd a data_in err s)
  unfolding reconnected
  reconnected-Holds c fd a t data_in (pos zero) s p g = answer-Holds c fd a t data_in s p g
  reconnected-Holds c fd a t data_in (pos (suc n)) s p g = give_up-Holds c s g
  reconnected-Holds c fd a t data_in (negsuc n) s p g = give_up-Holds c s g

  received-Holds :
      (c fd a : ℕ) (t : Session) (got : ℤ × Bytes) (s : State d)
      → s.heap a ≡ some t
      → Steady s
      → Holds (λ _ s'. Steady s') (received d c fd a got s)
  unfolding Holds received
  received-Holds c fd a t (negsuc n, data_in) s p g = give_up-Holds c s g
  received-Holds c fd a t (pos zero, data_in) s p g = give_up-Holds c s g
  received-Holds c fd a t (pos (suc n), data_in) s p g = elim (Option-cases t.proto_channel) [
    | inl q ↦
        rw (p, q, received, Holds)
          (Holds->>= (λ _ s'. Steady s' × SameNodes d l s s' × Allocated d l a s')
            (λ _ s'. Steady s') (connect_proto d a) (reconnected d c fd a data_in) s
            (Returns-Holds (λ _ s'. Steady s' × SameNodes d l s s' × Allocated d l a s')
              (connect_proto d a s) (connect_proto-Returns d l [] none a t s p g))
            λ err s' (g', m, (u, p')). reconnected-Holds c fd a u data_in err s' p' g')
    | inr (k, q) ↦ rw (p, q, received, Holds) (answer-Holds c fd a t data_in s p g)
  ]

  -- The read handler of a node channel.
  pub on_node_channel_data-Holds :
      (c : ℕ) (io : Io) (s : State d)
      → lookup c s.node_channels ≡ some io
      → Steady s
      → Holds (λ _ s'. Steady s') (on_node_channel_data d c s)
  unfolding Holds on_node_channel_data
  on_node_channel_data-Holds c io s found (v, w) =
      let (t, h) = node_alive d l [] none s c io v found in
      let (got, w') = d.recv io.fd s.world in
      rw (found, on_node_channel_data, Holds)
        (received-Holds c io.fd io.session t got (record s { world = w' }) h
          (world-Inv d [] none s w' v, l.recv-Valid io.fd s.world w))

  session_connected-Returns :
      (fd a : ℕ) (err : ℤ) (s : State d)
      → occurs a (entries s.session_list) ≡ 0
      → Good d l (a ∷ []) none s
      → Returns (λ _ s'. Steady s') (session_connected d fd a err s)
  unfolding Returns session_connected create_node_channel
  session_connected-Returns fd a (negsuc n) s z g =
      Returns->>= (λ _ s'. Steady s' × SameNodes d l s s') (λ _ s'. Steady s') (session_unref d a)
        (λ _. pure (negsuc n)) s (unref-Returns d l [] none a s g) λ _ s' (g', m). g'
  session_connected-Returns fd a (pos n) s z (v, w) =
      let io : Io = record { fd = fd; session = a } in
      let (t, h) = alive d (a ∷ []) none s a v (ground arith) in
      let s1 = record s { next = suc s.next; node_channels = (s.next, io) ∷ s.node_channels } in
      let v1 = node_add-Inv d [] none s io v in
      let u = record t { node_channel = some s.next } in
      let s2 = write_at d a (some u) s1 in
      rw (h, session_connected, Returns)
        (
          list_push-Inv d [] none s2 a z (s.next, ground arith, ground arith)
              (set_node-Inv d [] none s1 a t h s.next z v1),
          w,
        )

  -- A new session is not listed: what is listed is allocated, and its address is new.
  new-unlisted : (s : State d) → Steady s → occurs s.next (entries s.session_list) ≡ 0
  new-unlisted s (v, w) = elim (Bool-cases (ltb 0 (occurs s.next (entries s.session_list)))) [
    | inl p ↦ elim (v.listed s.next (ground arith)) [
      | inl q ↦ absurd (cc)
      | inr (c, q, r) ↦ absurd (ground (arith, v.fresh s.next))
    ]
    | inr p ↦ ground arith
  ]

  pub session_create-Returns :
      (fd : ℕ) (s : State d) → Steady s → Returns (λ _ s'. Steady s') (session_create d fd s)
  unfolding Returns session_create session_new
  session_create-Returns fd s (v, w) =
      Returns->>=
        (λ _ s'.
          Good d l (s.next ∷ []) none s'
          × SameNodes d l (with_blank d s) s'
          × Allocated d l s.next s')
        (λ _ s'. Steady s') (connect_proto d s.next) (session_connected d fd s.next)
        (with_blank d s)
        (connect_proto-Returns d l (s.next ∷ []) none s.next (blank d) (with_blank d s)
          (ground arith) (new-Inv d [] none s refl v, w))
        λ err s' (g', (k, m, n), found).
          session_connected-Returns fd s.next err s'
            (ap (λ q. occurs s.next (entries q)) n ∙ new-unlisted s (v, w)) g'

  -- One session of `session_list` is destroyed.
  session_destroy-Returns :
      (a : ℕ) (rest : List ℕ) (s : State d)
      → entries s.session_list ≡ a ∷ rest
      → Steady s
      → Returns (λ _ s'. Steady s' × (entries s'.session_list ≡ rest)) (session_destroy d a s)
  unfolding Returns session_destroy destroy_node_channel
  session_destroy-Returns a rest s p (v, w) = elim (v.listed a (rw (p) (ground arith))) [
    | inl q ↦ absurd (cc)
    | inr (c, q, r) ↦
        let (io, found, e) = target-some d l c a s.node_channels r in
        let (t, h) = node_alive d l [] none s c io v found in
        rw
          (
            ap s.heap (sym e) ∙ h,
            sym (ap node_of (ap s.heap (sym e) ∙ h)) ∙ q,
            session_destroy,
            Returns,
          )
          (Returns-weaken (λ _ s'. Steady s' × Ended d l c io.session s s')
            (λ _ s'. Steady s' × (entries s'.session_list ≡ rest))
            (end_node_channel d d.disconnects c s)
            (end_node_channel-Returns d l d.disconnects c io s found (v, w))
            λ _ s' (g, (k, m, n)).
              (g, ap entries n ∙ queue_remove-head a io.session rest s.session_list p e))
  ]

  -- The first session of the queue takes its own entry out of it.
  destroy_each-freed :
      (a : ℕ) (rest : List ℕ) (s : State d)
      → entries s.session_list ≡ a ∷ rest
      → Steady s
      → destroy_each d (a ∷ rest) s ≡ fault freed_entry
  unfolding destroy_each
  destroy_each-freed a rest s p (v, w) =
      let (u, s', ran, (g, q)) =
        Returns-ok (λ _ s'. Steady s' × (entries s'.session_list ≡ rest)) (session_destroy d a s)
          (session_destroy-Returns a rest s p (v, w)) in
      let gone : occurs a rest ≡ 0 = ground (arith, v.once a, p) in
      ok->>= (session_destroy d a)
        (λ _. gets (λ s1. ltb 0 (occurs a (entries s1.session_list))) >>= λ listed.
          if listed then destroy_each d rest else fail freed_entry)
        u s s' ran
      ∙ rw (q, gone) refl

  -- A shutdown with a listed session.
  pub session_destroy_all-freed :
      (a : ℕ) (rest : List ℕ) (s : State d)
      → entries s.session_list ≡ a ∷ rest
      → Steady s
      → session_destroy_all d s ≡ fault freed_entry
  unfolding session_destroy_all
  session_destroy_all-freed a rest s p g =
      rw (p, session_destroy_all, ◌>>=◌) (rw (destroy_each-freed a rest s p g) refl)

  -- An empty queue may be freed.
  no_list-Inv :
      (s : State d)
      → entries s.session_list ≡ []
      → Inv d [] none s
      → Inv d [] none (record s { session_list = none })
  no_list-Inv s p v = record {
    counted = v.counted;
    fresh = v.fresh;
    connected = v.connected;
    listed = λ b h. absurd (omega arith);
    once = λ b. omega arith;
    distinct = v.distinct;
    new_node = v.new_node;
    new_proto = v.new_proto;
  }

  pub session_destroy_all-Holds :
      (s : State d) → Steady s → Holds (λ _ s'. Steady s') (session_destroy_all d s)
  unfolding Holds session_destroy_all destroy_each
  session_destroy_all-Holds s (v, w) = go (entries s.session_list) refl
    where
      go :
          (sessions : List ℕ)
          → entries s.session_list ≡ sessions
          → Holds (λ _ s'. Steady s') (session_destroy_all d s)
      go [] p = rw (p, session_destroy_all, Holds) (no_list-Inv s p v, w)
      go (a ∷ rest) p = rw (session_destroy_all-freed a rest s p (v, w), Holds) tt
