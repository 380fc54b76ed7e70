-- ===== src/Msg/Stopped.antt =====
-- src/msg.c: the objects after `msg_stop`.
use knot_service_source.Common.{
  ℕ, ◌+◌, ◌≡◌, refl, ap, ◌∙◌, subst, none, List, [], ◌∷◌, count_by, occurs, arith, ◌==◌,
  if◌then◌else◌,
}
use knot_service_source.Env.{Env}
use knot_service_source.Common.Hoare.{Holds, Holds->>=}
use knot_service_source.Msg.State.{State}
use knot_service_source.Msg.Trust.{trust_unref}
use knot_service_source.Msg.Lifetime.Invariant.{Inv, Counted, trust_id, refs}
use knot_service_source.Msg.Lifetime.Trusts.{pure-Holds, trust_unref-Holds}
use knot_service_source.Msg.Run.{Reachable, destroy_entries, msg_stop}
use knot_service_source.Msg.Safety.{Reachable-Inv}

-- The trusts of a table.
values : List (ℕ × ℕ) → List ℕ
values [] = []
values ((sock, a) ∷ rest) = a ∷ values rest

occurs-values : (a : ℕ) (m : List (ℕ × ℕ)) → occurs a (values m) ≡ count_by trust_id a m
unfolding values
occurs-values a [] = refl
occurs-values a ((sock, b) ∷ rest) = ap (λ n. (if b == a then 1 else 0) + n) (occurs-values a rest)

module _ (e : Env) where
  -- The table is empty, and the objects are counted without it.
  abbrev pub Stopped : State e → State e → Type 0
  Stopped s s' =
      Inv e [] none s' × (s'.trust_map ≡ []) × (s'.channels ≡ s.channels) × (s'.watches ≡ s.watches)

  clear-Inv :
      (s : State e)
      → Inv e [] none s
      → Inv e (values s.trust_map) none (record s { trust_map = [] })
  clear-Inv s v = record {
    counted = λ a. subst (Counted (s.heap a)) (moved a) (v.counted a);
    fresh = v.fresh;
    distinct = tt;
    watched = v.watched;
    channelled = λ sock a p. absurd (cc);
    new_channel = v.new_channel;
    new_watch = v.new_watch;
  }
    where
      moved : (a : ℕ) → refs e s [] a ≡ refs e (record s { trust_map = [] }) (values s.trust_map) a
      moved a = omega (arith, occurs-values a s.trust_map)

  destroy_entries-Holds :
      (m : List (ℕ × ℕ)) (s0 s : State e)
      → Inv e (values m) none s
      → s.trust_map ≡ []
      → s.channels ≡ s0.channels
      → s.watches ≡ s0.watches
      → Holds (λ _ s'. Stopped s0 s') (destroy_entries e m s)
  unfolding destroy_entries values
  destroy_entries-Holds [] s0 s v p c w = pure-Holds e _ tt s (v, p, c, w)
  destroy_entries-Holds ((sock, a) ∷ rest) s0 s v p c w =
      Holds->>= _ (λ _ s'. Stopped s0 s') (trust_unref e a) (λ _. destroy_entries e rest) s
        (trust_unref-Holds e (values rest) none a s v)
        λ _ s' (i, m, d, x). destroy_entries-Holds rest s0 s' i (m ∙ p) (d ∙ c) (x ∙ w)

-- `msg_stop` in a state between two calls uses no freed trust: it leaves an empty table and the node
-- channels and device watches as they were, and a trust is allocated afterwards exactly while one of
-- those points to it.
pub msg_stop_lem :
    (e : Env) (s : State e) → Reachable e s → Holds (λ _ s'. Stopped e s s') (msg_stop e s)
unfolding msg_stop
msg_stop_lem e s r =
    destroy_entries-Holds e s.trust_map s (record s { trust_map = [] })
      (clear-Inv e s (Reachable-Inv e s r)) refl refl refl
