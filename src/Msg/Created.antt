-- ===== src/Msg/Created.antt =====
-- src/msg.c: the trust of a socket after `trust_create`.
use knot_service_source.Common.{
  ℕ, suc, ◌+◌, ◌≡◌, ◌≢◌, refl, sym, ap, inl, inr, Bool, Option, none, some, [], ◌∷◌, lookup, subst,
  Bool-cases, ==_self, arith, ◌==◌, if◌then◌else◌, ltb, ◌-◌,
}
use knot_service_source.Common.Queue.{Queue}
use knot_service_source.Env.{Env}
use knot_service_source.Env.Messages.{Bytes, MsgSchema}
use knot_service_source.Common.Monad.{Result, ok, fault, M, pure, modify, gets, ◌>>=◌, ◌>>◌}
use knot_service_source.Msg.State.{Config, State, Trust, assign, write_at}
use knot_service_source.Msg.Trust.{
  trust_map_add, trust_map_remove, trust_map_replace, trust_ref, trust_unref, unref_found,
  trust_new, create_node_channel, create_device_watch, attach_watch, publish, filled, blank,
  with_blank, trust_create,
}
use knot_service_source.Msg.Lifetime.Invariant.{Inv}
use knot_service_source.Msg.Lifetime.Trusts.{mapped_alive}
use knot_service_source.Msg.Run.{Reachable}
use knot_service_source.Msg.Safety.{Reachable-Inv}

module _ {S A : Type 0} where
  -- The call returns, and `P` of the state then.
  unfoldable Ends : (S → Type 0) → Result (A × S) → Type 0
  Ends P (ok (a, s)) = P s
  Ends P (fault x) = ⊥

  Ends-ok :
      (P : S → Type 0) (r : Result (A × S)) → Ends P r → (a : A) × (s : S) × (r ≡ ok (a, s)) × P s
  unfolding Ends
  Ends-ok P (ok (a, s)) h = (a, s, refl, h)
  Ends-ok P (fault x) h = absurd h

module _ {S A B : Type 0} where
  bind-Ends :
      (Q P : S → Type 0) (m : M S A) (f : A → M S B) (s : S)
      → Ends Q (m s)
      → ((a : A) (s' : S) → Q s' → Ends P (f a s'))
      → Ends P ((m >>= f) s)
  unfolding Ends
  bind-Ends Q P m f s h k = go (m s) h
    where
      go :
          (r : Result (A × S))
          → Ends Q r
          → Ends P (elim r [ ok (a, s') ↦ f a s' | fault x ↦ fault x ])
      go (ok (a, s')) q = k a s' q
      go (fault x) q = q

-- What the caller of `trust_create` gave.
pub record IsFilled (V : Type 0) (proto_sock : ℕ) (uuid token : Bytes) (id pid : ℕ)
    (rollback : Bool) (schema : Queue MsgSchema) (config : Queue (Config V)) (t : Trust V)
    : Type 0 where
  pub same_sock : t.proto_sock ≡ proto_sock
  pub same_uuid : t.uuid ≡ uuid
  pub same_token : t.token ≡ token
  pub same_id : t.id ≡ id
  pub same_pid : t.pid ≡ pid
  pub same_rollback : t.rollback ≡ rollback
  pub same_schema : t.schema ≡ schema
  pub same_config : t.config ≡ config
  pub no_schema_tmp : t.schema_tmp ≡ none

module _ (e : Env) (proto_sock : ℕ) (uuid token : Bytes) (id pid : ℕ) (rollback : Bool)
    (schema : Queue MsgSchema) (config : Queue (Config e.Val)) where
  -- The trust at the address is filled in.
  abbrev pub HasFilled : ℕ → State e → Type 0
  HasFilled a s =
      (t : Trust e.Val) × (s.heap a ≡ some t)
      × IsFilled e.Val proto_sock uuid token id pid rollback schema config t

  -- And the socket maps to it.
  abbrev pub Online : ℕ → ℕ → State e → Type 0
  Online sock a s = HasFilled a s × (lookup sock s.trust_map ≡ some a)

  assign-Online :
      (sock a : ℕ) (f : Trust e.Val → Trust e.Val) (s : State e)
      → ((t : Trust e.Val)
          → IsFilled e.Val proto_sock uuid token id pid rollback schema config t
          → IsFilled e.Val proto_sock uuid token id pid rollback schema config (f t))
      → Online sock a s
      → Ends (Online sock a) (assign e a f s)
  unfolding Ends
  assign-Online sock a f s k ((t, p, i), m) = rw (p, Ends) ((f t, rw (==_self a) refl, k t i), m)

  ref-Online : (sock a : ℕ) (s : State e) → Online sock a s → Ends (Online sock a) (trust_ref e a s)
  unfolding Ends trust_ref
  ref-Online sock a s ((t, p, i), m) =
      rw (p, trust_ref, Ends) ((_, rw (==_self a) refl, refs_kept t i), m)
    where
      refs_kept :
          (t : Trust e.Val)
          → IsFilled e.Val proto_sock uuid token id pid rollback schema config t
          → IsFilled e.Val proto_sock uuid token id pid rollback schema config
              (record t { refs = t.refs + 1 })
      refs_kept t i = record {
        same_sock = i.same_sock;
        same_uuid = i.same_uuid;
        same_token = i.same_token;
        same_id = i.same_id;
        same_pid = i.same_pid;
        same_rollback = i.same_rollback;
        same_schema = i.same_schema;
        same_config = i.same_config;
        no_schema_tmp = i.no_schema_tmp;
      }

  channel-Online :
      (sock a : ℕ) (s : State e)
      → Online sock a s
      → Ends (Online sock a) (create_node_channel e sock a s)
  unfolding Ends create_node_channel
  channel-Online sock a s h =
      bind-Ends (Online sock a) (Online sock a) (trust_ref e a) _ s (ref-Online sock a s h)
        λ held s' h'. h'

  add_watch-Online :
      (sock a io id : ℕ) (s : State e)
      → Online sock a s
      → Ends (Online sock a) (
          (trust_ref e a >>= λ held. gets (λ s. s.next) >>= λ watch.
          modify (λ s. record s {
            next = suc s.next;
            watches = (watch, record { id = id; node_io = io; trust = held }) ∷ s.watches;
          })
          >> pure watch)
            s)
  unfolding Ends
  add_watch-Online sock a io id s h =
      bind-Ends (Online sock a) (Online sock a) (trust_ref e a) _ s (ref-Online sock a s h)
        λ held s' h'. h'

  watch-Online :
      (sock a io : ℕ) (s : State e)
      → Online sock a s
      → Ends (Online sock a) (create_device_watch e a io s)
  unfolding Ends create_device_watch
  watch-Online sock a io s ((t, p, i), m) =
      let (id, world) = e.async t.proto_sock t.uuid t.token s.world in
      rw (p, create_device_watch, Ends)
        (add_watch-Online sock a io id (record s { world = world }) ((t, p, i), m))

  attach-Online :
      (sock a io : ℕ) (s : State e) → Online sock a s → Ends (Online sock a) (attach_watch e io a s)
  unfolding attach_watch
  attach-Online sock a io s h =
      bind-Ends (Online sock a) (Online sock a) (create_device_watch e a io) _ s
        (watch-Online sock a io s h)
        λ w s' h'.
          assign-Online sock a (λ t. record t { proto_watch = some w }) s' (watch_kept w) h'
    where
      watch_kept :
          (w : ℕ) (t : Trust e.Val)
          → IsFilled e.Val proto_sock uuid token id pid rollback schema config t
          → IsFilled e.Val proto_sock uuid token id pid rollback schema config
              (record t { proto_watch = some w })
      watch_kept w t i = record {
        same_sock = i.same_sock;
        same_uuid = i.same_uuid;
        same_token = i.same_token;
        same_id = i.same_id;
        same_pid = i.same_pid;
        same_rollback = i.same_rollback;
        same_schema = i.same_schema;
        same_config = i.same_config;
        no_schema_tmp = i.no_schema_tmp;
      }

  -- Dropping another trust's pointer.
  unref-HasFilled :
      (a : ℕ) (o : Option ℕ) (s : State e)
      → o ≢ some a
      → ((b : ℕ) → o ≡ some b → (u : Trust e.Val) × (s.heap b ≡ some u))
      → HasFilled a s
      → Ends (HasFilled a) (unref_found e o s)
  unfolding Ends unref_found trust_unref
  unref-HasFilled a none s ne live h = h
  unref-HasFilled a (some b) s ne live (t, p, i) =
      let (u, q) = live b refl in
      rw (q, unref_found, trust_unref, Ends)
        (
          t,
          other b (if ltb 1 u.refs then some (record u { refs = u.refs - 1 }) else none)
              (λ r. ne (ap some (sym r))),
          i,
        )
    where
      other :
          (b : ℕ) (cell : Option (Trust e.Val))
          → a ≢ b
          → (if a == b then cell else s.heap a) ≡ some t
      other b cell d = ground (arith, p)

  replace-Online :
      (sock a : ℕ) (s : State e)
      → lookup sock s.trust_map ≢ some a
      → ((b : ℕ) → lookup sock s.trust_map ≡ some b → (u : Trust e.Val) × (s.heap b ≡ some u))
      → HasFilled a s
      → Ends (Online sock a) (trust_map_replace e sock a s)
  unfolding trust_map_replace trust_map_remove trust_map_add Ends
  replace-Online sock a s ne live h =
      bind-Ends (HasFilled a) (Online sock a) (trust_map_remove e sock) _ s
        (unref-HasFilled a (lookup sock s.trust_map) _ ne live h)
        λ _ s' h'. (h', rw (==_self sock) refl)

  publish-Online :
      (sock a : ℕ) (s : State e)
      → lookup sock s.trust_map ≢ some a
      → ((b : ℕ) → lookup sock s.trust_map ≡ some b → (u : Trust e.Val) × (s.heap b ≡ some u))
      → HasFilled a s
      → Ends (Online sock a) (publish e sock a s)
  unfolding publish
  publish-Online sock a s ne live h =
      bind-Ends (Online sock a) (Online sock a) (trust_map_replace e sock a)
        (λ _. create_node_channel e sock a >>= λ io. attach_watch e io a) s
        (replace-Online sock a s ne live h)
        λ _ s1 h1.
          bind-Ends (Online sock a) (Online sock a) (create_node_channel e sock a)
            (λ io. attach_watch e io a) s1 (channel-Online sock a s1 h1)
            λ io s2 h2. attach-Online sock a io s2 h2

  trust_create-Online :
      (sock : ℕ) (s : State e)
      → lookup sock s.trust_map ≢ some s.next
      → ((b : ℕ) → lookup sock s.trust_map ≡ some b → (u : Trust e.Val) × (s.heap b ≡ some u))
      → Ends
          (Online sock s.next)
          (trust_create e sock proto_sock uuid token id pid rollback schema config s)
  unfolding Ends trust_create trust_new
  trust_create-Online sock s ne live =
      rw (==_self s.next, trust_create, Ends)
        (publish-Online sock s.next
          (write_at e s.next
            (some (filled e proto_sock uuid token id pid rollback schema config (blank e)))
            (with_blank e s))
          ne (λ b h. still_there b (live b h))
          (
            filled e proto_sock uuid token id pid rollback schema config (blank e),
            rw (==_self s.next) refl,
            record {
              same_sock = refl;
              same_uuid = refl;
              same_token = refl;
              same_id = refl;
              same_pid = refl;
              same_rollback = refl;
              same_schema = refl;
              same_config = refl;
              no_schema_tmp = refl;
            },
          ))
    where
      still_there :
          (b : ℕ)
          → (u : Trust e.Val) × (s.heap b ≡ some u)
          → (u : Trust e.Val) × ((write_at e s.next
                  (some (filled e proto_sock uuid token id pid rollback schema config (blank e)))
                  (with_blank e s)).heap
                b
              ≡ some u)
      still_there b (u, p) = elim (Bool-cases (b == s.next)) [
        | inl q ↦
            (filled e proto_sock uuid token id pid rollback schema config (blank e), rw q refl)
        | inr q ↦ (u, rw (q, p) refl)
      ]

fresh_unmapped :
    (e : Env) (sock : ℕ) (s : State e) → Inv e [] none s → lookup sock s.trust_map ≢ some s.next
fresh_unmapped e sock s v h =
    let (t, p) = mapped_alive e [] none s sock s.next v h in
    absurd (ground (arith, v.fresh s.next, p))

module _ (e : Env) (sock proto_sock id pid : ℕ) (uuid token : Bytes) (rollback : Bool)
    (schema : Queue MsgSchema) (config : Queue (Config e.Val)) (s : State e) where
  trust_create-Ends :
      Reachable e s
      → Ends
          (Online e proto_sock uuid token id pid rollback schema config sock s.next)
          (trust_create e sock proto_sock uuid token id pid rollback schema config s)
  trust_create-Ends r =
      trust_create-Online e proto_sock uuid token id pid rollback schema config sock s
        (fresh_unmapped e sock s (Reachable-Inv e s r))
        λ b h. mapped_alive e [] none s sock b (Reachable-Inv e s r) h

  -- What holds of the socket after a call that has returned.
  pub created-Online :
      (result : Unit {0}) (s' : State e)
      → Reachable e s
      → trust_create e sock proto_sock uuid token id pid rollback schema config s ≡ ok (result, s')
      → Online e proto_sock uuid token id pid rollback schema config sock s.next s'
  unfolding Ends
  created-Online result s' r p =
      subst (Ends (Online e proto_sock uuid token id pid rollback schema config sock s.next)) p
        (trust_create-Ends r)

-- In a state between two calls, `trust_create` returns, and the socket then maps to an allocated trust
-- that has the cloud socket, the credentials, the device, the process, the mark, the schema and the
-- configuration that the caller gave and no queue `schema_tmp`, whether or not the socket had a trust
-- before.
pub trust_create_lem :
    (e : Env) (sock proto_sock id pid : ℕ) (uuid token : Bytes) (rollback : Bool)
    (schema : Queue MsgSchema) (config : Queue (Config e.Val)) (s : State e)
    → Reachable e s
    → (result : Unit {0}) × (s' : State e) × (trust_create e sock proto_sock uuid token id pid
          rollback schema config s
        ≡ ok (result, s'))
      × Online e proto_sock uuid token id pid rollback schema config sock s.next s'
trust_create_lem e sock proto_sock id pid uuid token rollback schema config s r =
    Ends-ok (Online e proto_sock uuid token id pid rollback schema config sock s.next)
      (trust_create e sock proto_sock uuid token id pid rollback schema config s)
      (trust_create-Ends e sock proto_sock id pid uuid token rollback schema config s r)
