-- ===== src/Msg/Lifetime/Trusts.antt =====
-- The invariant of the objects, over the operations of src/msg.c on trusts, `trust_map`, channels and
-- watches.
use knot_service_source.Common.{
  ℕ, ◌≡◌, refl, inl, inr, Bool, true, false, Option, none, some, List, [], ◌∷◌, lookup, erase,
  erase_missing, count_by_pos, lookup-erase_self, arith, Option-cases, subst,
}
use knot_service_source.Common.Queue.{Queue}
use knot_service_source.Env.{Env}
use knot_service_source.Env.Messages.{Bytes, MsgSchema}
use knot_service_source.Common.Monad.{ok, modify, ◌>>=◌, ◌>>◌}
use knot_service_source.Common.Hoare.{Holds, Holds->>=, Holds-weaken}
use knot_service_source.Msg.State.{State, Trust, Config, ProtoWatch, write_at, assign}
use knot_service_source.Msg.Trust.{
  blank, with_blank, filled, trust_new, trust_ref, trust_unref, unref_found, trust_map_remove,
  trust_map_add, trust_map_replace, create_node_channel, create_device_watch, attach_watch, publish,
  trust_create, on_device_watch_destroyed, destroy_if, remove_device_watch,
}
use knot_service_source.Msg.Lifetime.Invariant.{Inv, target, trust_id, watch_trust}
use knot_service_source.Msg.Lifetime.Steps.{
  alive, world-Inv, write-Inv, ref-Inv, unref-Inv, set_watch-Inv, new-Inv, map_erase-Inv,
  map_add-Inv, watch_add-Inv, channel_add-Inv, watch_erase-Inv,
}

module _ (e : Env) where
  pub pure-Holds :
      {A : Type 0} (P : A → State e → Type 0) (a : A) (s : State e) → P a s → Holds P (ok (a, s))
  unfolding Holds
  pure-Holds P a s p = p

  pub target-some :
      (h a : ℕ) (m : List (ℕ × ProtoWatch))
      → target (lookup h m) ≡ some a
      → (w : ProtoWatch) × (lookup h m ≡ some w) × (w.trust ≡ a)
  target-some h a m p = elim (Option-cases (lookup h m)) [
    | inl q ↦ ground arith
    | inr (w, q) ↦ (w, q, ground arith)
  ]

  -- A write through a pointer to an allocated trust.
  pub assign-Holds :
      (P : Unit {0} → State e → Type 0) (a : ℕ) (f : Trust e.Val → Trust e.Val) (s : State e)
      (t : Trust e.Val)
      → s.heap a ≡ some t
      → P tt (write_at e a (some (f t)) s)
      → Holds P (assign e a f s)
  unfolding Holds
  assign-Holds P a f s t h p = rw (h, assign, Holds) p

  -- The trust that a socket maps to is allocated.
  pub mapped_alive :
      (xs : List ℕ) (skip : Option ℕ) (s : State e) (sock a : ℕ)
      → Inv e xs skip s
      → lookup sock s.trust_map ≡ some a
      → (t : Trust e.Val) × (s.heap a ≡ some t)
  mapped_alive xs skip s sock a v h =
      alive e xs skip s a v (ground (arith, count_by_pos trust_id sock a s.trust_map h))

  pub watched_alive :
      (xs : List ℕ) (skip : Option ℕ) (s : State e) (h : ℕ) (w : ProtoWatch)
      → Inv e xs skip s
      → lookup h s.watches ≡ some w
      → (t : Trust e.Val) × (s.heap w.trust ≡ some t)
  watched_alive xs skip s h w v p =
      alive e xs skip s w.trust v (ground (arith, count_by_pos watch_trust h w s.watches p))

  pub trust_unref-Holds :
      (xs : List ℕ) (skip : Option ℕ) (a : ℕ) (s : State e)
      → Inv e (a ∷ xs) skip s
      → Holds
          (λ _ s'.
            Inv e xs skip s'
            × (s'.trust_map ≡ s.trust_map)
            × (s'.channels ≡ s.channels)
            × (s'.watches ≡ s.watches))
          (trust_unref e a s)
  unfolding Holds trust_unref
  trust_unref-Holds xs skip a s v =
      let (t, h) = alive e (a ∷ xs) skip s a v (ground arith) in
      rw (h, trust_unref, Holds) (unref-Inv e xs skip s a t h v, refl, refl, refl)

  pub trust_map_remove-Holds :
      (xs : List ℕ) (skip : Option ℕ) (sock : ℕ) (s : State e)
      → Inv e xs skip s
      → Holds
          (λ _ s'.
            Inv e xs skip s' × (lookup sock s'.trust_map ≡ none) × (s'.channels ≡ s.channels))
          (trust_map_remove e sock s)
  unfolding trust_map_remove unref_found
  trust_map_remove-Holds xs skip sock s v = elim (Option-cases (lookup sock s.trust_map)) [
    | inl h ↦
        rw (h, trust_map_remove, erase_missing sock s.trust_map h) (pure-Holds _ _ _ (v, h, refl))
    | inr (a, h) ↦
        rw (h, trust_map_remove)
          (Holds-weaken _ _ _ (trust_unref-Holds xs skip a _ (map_erase-Inv e xs skip s sock a h v))
            λ _ s' (i, m, c, w). (i, rw m (lookup-erase_self sock s.trust_map v.distinct), c))
  ]

  pub trust_map_replace-Holds :
      (xs : List ℕ) (sock a : ℕ) (s : State e)
      → Inv e (a ∷ xs) none s
      → Holds
          (λ _ s'. Inv e xs (some sock) s' × (lookup sock s'.trust_map ≡ some a))
          (trust_map_replace e sock a s)
  unfolding Holds trust_map_replace trust_map_add
  trust_map_replace-Holds xs sock a s v =
      Holds->>= _ _ (trust_map_remove e sock) (λ _. trust_map_add e sock a) s
        (trust_map_remove-Holds (a ∷ xs) none sock s v)
        λ _ s' (i, m, c). (map_add-Inv e xs none s' sock a refl m i, ground arith)

  pub create_node_channel-Holds :
      (xs : List ℕ) (sock a : ℕ) (s : State e)
      → Inv e xs (some sock) s
      → lookup sock s.trust_map ≡ some a
      → Holds
          (λ _ s'. Inv e xs none s' × (lookup sock s'.trust_map ≡ some a))
          (create_node_channel e sock a s)
  unfolding Holds create_node_channel trust_ref
  create_node_channel-Holds xs sock a s v h =
      let (t, p) = mapped_alive xs (some sock) s sock a v h in
      rw (p, create_node_channel, trust_ref, Holds)
        (
          channel_add-Inv e xs (some sock) _ sock a h refl
              (ref-Inv e xs (some sock) s a t p _ refl refl v),
          h,
        )

  pub create_device_watch-Holds :
      (xs : List ℕ) (sock a io : ℕ) (s : State e)
      → Inv e xs none s
      → lookup sock s.trust_map ≡ some a
      → Holds
          (λ h s'. Inv e xs none s' × (target (lookup h s'.watches) ≡ some a))
          (create_device_watch e a io s)
  unfolding Holds create_device_watch trust_ref
  create_device_watch-Holds xs sock a io s v h =
      let (t, p) = mapped_alive xs none s sock a v h in
      rw (p, create_device_watch, Holds)
        (rw (p, Holds)
          (
            watch_add-Inv e xs none _ _
                (ref-Inv e xs none _ a t p _ refl refl (world-Inv e xs none s _ v)),
            ground arith,
          ))

  attach_watch-Holds :
      (xs : List ℕ) (sock a io : ℕ) (s : State e)
      → Inv e xs none s
      → lookup sock s.trust_map ≡ some a
      → Holds (λ _ s'. Inv e xs none s') (attach_watch e io a s)
  unfolding attach_watch
  attach_watch-Holds xs sock a io s v h =
      Holds->>= _ _ (create_device_watch e a io)
        (λ watch. assign e a λ t. record t { proto_watch = some watch }) s
        (create_device_watch-Holds xs sock a io s v h)
        λ watch s' (i, w).
          let (x, found, points) = target-some watch a s'.watches w in
          let (t, p) = watched_alive xs none s' watch x i found in
          let at_a : s'.heap a ≡ some t = subst (λ b. s'.heap b ≡ some t) points p in
          assign-Holds _ a _ s' t at_a (set_watch-Inv e xs none s' a t at_a watch w i)

  publish-Holds :
      (xs : List ℕ) (sock a : ℕ) (s : State e)
      → Inv e (a ∷ xs) none s
      → Holds (λ _ s'. Inv e xs none s') (publish e sock a s)
  unfolding publish
  publish-Holds xs sock a s v =
      Holds->>= _ _ (trust_map_replace e sock a)
        (λ _. create_node_channel e sock a >>= λ io. attach_watch e io a) s
        (trust_map_replace-Holds xs sock a s v)
        λ _ s1 (i, m).
          Holds->>= _ _ (create_node_channel e sock a) (λ io. attach_watch e io a) s1
            (create_node_channel-Holds xs sock a s1 i m)
            λ io s2 (j, n). attach_watch-Holds xs sock a io s2 j n

  -- `trust_create` ends with the new trust counted three times: in the map, by its channel and by
  -- its watch.
  pub trust_create-Holds :
      (node_sock proto_sock : ℕ) (uuid token : Bytes) (id pid : ℕ) (rollback : Bool)
      (schema : Queue MsgSchema) (config : Queue (Config e.Val)) (s : State e)
      → Inv e [] none s
      → Holds
          (λ _ s'. Inv e [] none s')
          (trust_create e node_sock proto_sock uuid token id pid rollback schema config s)
  unfolding trust_create trust_new
  trust_create-Holds node_sock proto_sock uuid token id pid rollback schema config s v =
      let fill = filled e proto_sock uuid token id pid rollback schema config in
      let s0 = with_blank e s in
      let at_new : s0.heap s.next ≡ some (blank e) = ground arith in
      Holds->>= (λ _ s'. Inv e (s.next ∷ []) none s') _ (assign e s.next fill)
        (λ _. publish e node_sock s.next) s0
        (assign-Holds _ s.next fill s0 (blank e) at_new (
          write-Inv e (s.next ∷ []) none s0 s.next (blank e) at_new _ refl refl
            (new-Inv e [] none s (blank e) refl refl v)))
        λ _ s1 i. publish-Holds [] node_sock s.next s1 i

  -- Dropping a pointer and then the record that it stood in is dropping the record first.
  unref_then_erase_watch :
      (xs : List ℕ) (a h : ℕ) (s : State e)
      → Inv e (a ∷ xs) none (record s { watches = erase h s.watches })
      → Holds
          (λ _ s'. Inv e xs none s' × (s'.trust_map ≡ s.trust_map) × (s'.channels ≡ s.channels))
          ((trust_unref e a >> modify λ s1. record s1 { watches = erase h s1.watches }) s)
  unfolding Holds trust_unref
  unref_then_erase_watch xs a h s v =
      let (t, p) = alive e (a ∷ xs) none _ a v (ground arith) in
      rw (p, trust_unref, Holds) (unref-Inv e xs none _ a t p v, refl, refl)

  -- The destroy callback of a watch: the unreference and the release of the watch commute.
  pub on_device_watch_destroyed-Holds :
      (xs : List ℕ) (h : ℕ) (w : ProtoWatch) (s : State e)
      → lookup h s.watches ≡ some w
      → Inv e xs none s
      → Holds
          (λ _ s'. Inv e xs none s' × (s'.trust_map ≡ s.trust_map) × (s'.channels ≡ s.channels))
          (on_device_watch_destroyed e h s)
  unfolding Holds on_device_watch_destroyed
  on_device_watch_destroyed-Holds xs h w s found v =
      let (t, p) = watched_alive xs none s h w v found in
      rw (found, p, on_device_watch_destroyed, Holds)
        (unref_then_erase_watch xs w.trust h _ (watch_erase-Inv e xs none s h w t found p v))

  destroy_if-Holds :
      (xs : List ℕ) (called : Bool) (h : ℕ) (w : ProtoWatch) (s : State e)
      → lookup h s.watches ≡ some w
      → Inv e xs none s
      → Holds
          (λ _ s'. Inv e xs none s' × (s'.trust_map ≡ s.trust_map) × (s'.channels ≡ s.channels))
          (destroy_if e called h s)
  unfolding destroy_if
  destroy_if-Holds xs true h w s found v = on_device_watch_destroyed-Holds xs h w s found v
  destroy_if-Holds xs false h w s found v = pure-Holds _ _ _ (v, refl, refl)

  pub remove_device_watch-Holds :
      (xs : List ℕ) (h : ℕ) (w : ProtoWatch) (s : State e)
      → lookup h s.watches ≡ some w
      → Inv e xs none s
      → Holds
          (λ _ s'. Inv e xs none s' × (s'.trust_map ≡ s.trust_map) × (s'.channels ≡ s.channels))
          (remove_device_watch e h s)
  unfolding Holds remove_device_watch
  remove_device_watch-Holds xs h w s found v =
      let (t, p) = watched_alive xs none s h w v found in
      rw (found, p, remove_device_watch, Holds)
        (destroy_if-Holds xs _ h w _ found (world-Inv e xs none s _ v))
