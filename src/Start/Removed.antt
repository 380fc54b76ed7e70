-- ===== src/Start/Removed.antt =====
-- src/node.c: which drivers are removed.
use knot_service_source.Common.{
  ℕ, ◌+◌, ◌≡◌, ◌≢◌, refl, ap, sym, subst, ◌∙◌, inl, inr, ℤ, is_neg, true, false, Option, none, some,
  List, [], ◌∷◌, ◌++◌, Bool-cases, if◌then◌else◌, ◌==◌, occurs, arith,
}
use knot_service_source.Env.Messages.{Bytes}
use knot_service_source.Start.Servers.{
  Radio, State, stop_node_server, listen_on, probe_server, start_node_server, accept_on, start_all,
  node_start, stop_all_node_servers, node_stop,
}

occurs-snoc :
    (a x : ℕ) (l : List ℕ) → occurs a (l ++ x ∷ []) ≡ occurs a l + (if x == a then 1 else 0)
occurs-snoc a x [] = ground arith
occurs-snoc a x (y ∷ l) = ground (arith, occurs-snoc a x l)

-- Of the accept channels, those of a driver.
unfoldable pub channels_of : ℕ → List (ℕ × ℤ) → ℕ
channels_of a [] = 0
channels_of a (e ∷ l) = (if e.0 == a then 1 else 0) + channels_of a l

channels_of-snoc :
    (a : ℕ) (e : ℕ × ℤ) (l : List (ℕ × ℤ))
    → channels_of a (l ++ e ∷ []) ≡ channels_of a l + (if e.0 == a then 1 else 0)
unfolding channels_of
channels_of-snoc a e [] = ground arith
channels_of-snoc a e (y ∷ l) = ground (arith, channels_of-snoc a e l)

module _ (r : Radio) where
  stop_all-occurs :
      (a : ℕ) (node_ops : List ℕ) (s : State r)
      → occurs a (stop_all_node_servers r node_ops s).removed
        ≡ occurs a s.removed + occurs a node_ops
  unfolding stop_all_node_servers stop_node_server
  stop_all-occurs a [] s = omega arith
  stop_all-occurs a (ops ∷ node_ops) s =
      omega
        (arith, stop_all-occurs a node_ops (stop_node_server r ops s), occurs-snoc a ops s.removed)

  -- A driver whose probe always fails.
  NotProbed : ℕ → Type 0
  NotProbed a = (w : r.World) → is_neg (r.probe a w).0 ≡ true

  probe_server-kept :
      (a ops : ℕ) (s : State r)
      → NotProbed a
      → (occurs a (probe_server r ops s).1.removed ≡ occurs a s.removed)
        × (channels_of a (probe_server r ops s).1.accept_channel_list
            ≡ channels_of a s.accept_channel_list)
        × ((ops ≡ a) → is_neg (probe_server r ops s).0 ≡ true)
  unfolding probe_server listen_on stop_node_server NotProbed
  probe_server-kept a ops s h = elim (Bool-cases (is_neg (r.probe ops s.world).0)) [
    | inl n ↦ rw (n) (refl, refl, λ e. n)
    | inr n ↦ elim (Bool-cases (is_neg (r.listen ops (r.probe ops s.world).1).0)) [
      | inl m ↦ rw (n, m) (ground (arith, occurs-snoc a ops s.removed, differs n), refl, λ e. refl)
      | inr m ↦ rw (n, m) (refl, refl, λ e. absurd (differs n e))
    ]
  ]
    where
      differs : is_neg (r.probe ops s.world).0 ≡ false → ops ≢ a
      differs n e =
          ground (arith, subst (λ x. is_neg (r.probe x s.world).0 ≡ true) (sym e) (h s.world))

  start_node_server-kept :
      (tty : Option Bytes) (a ops : ℕ) (s : State r)
      → NotProbed a
      → (occurs a (start_node_server r tty ops s).1.removed ≡ occurs a s.removed)
        × (channels_of a (start_node_server r tty ops s).1.accept_channel_list
            ≡ channels_of a s.accept_channel_list)
        × ((ops ≡ a) → is_neg (start_node_server r tty ops s).0 ≡ true)
  unfolding start_node_server
  start_node_server-kept none a ops s h = elim (Bool-cases (r.is_serial ops)) [
    | inl p ↦ rw (p) (refl, refl, λ e. refl)
    | inr p ↦ rw (p) (probe_server-kept a ops s h)
  ]
  start_node_server-kept (some tty) a ops s h = elim (Bool-cases (r.is_serial ops)) [
    | inl p ↦ rw (p) (probe_server-kept a ops (record s { world = r.load_config tty s.world }) h)
    | inr p ↦ rw (p) (probe_server-kept a ops s h)
  ]

  accept_on-kept :
      (a ops : ℕ) (result : ℤ × State r)
      → ((ops ≡ a) → is_neg result.0 ≡ true)
      → (occurs a (accept_on r ops result).removed ≡ occurs a result.1.removed)
        × (channels_of a (accept_on r ops result).accept_channel_list
            ≡ channels_of a result.1.accept_channel_list)
  unfolding accept_on
  accept_on-kept a ops (e, s) h = elim (Bool-cases (is_neg e)) [
    | inl n ↦ rw (n) (refl, refl)
    | inr n ↦ rw (n) (refl, ground (arith, channels_of-snoc a (ops, e) s.accept_channel_list))
  ]

  start_all-kept :
      (tty : Option Bytes) (a : ℕ) (node_ops : List ℕ) (s : State r)
      → NotProbed a
      → (occurs a (start_all r tty node_ops s).removed ≡ occurs a s.removed)
        × (channels_of a (start_all r tty node_ops s).accept_channel_list
            ≡ channels_of a s.accept_channel_list)
  unfolding start_all
  start_all-kept tty a [] s h = (refl, refl)
  start_all-kept tty a (ops ∷ node_ops) s h =
      let (o, c, same) = start_node_server-kept tty a ops s h in
      let (o1, c1) = accept_on-kept a ops (start_node_server r tty ops s) same in
      let (o2, c2) =
        start_all-kept tty a node_ops (accept_on r ops (start_node_server r tty ops s)) h in
      (o2 ∙ o1 ∙ o, c2 ∙ c1 ∙ c)

  -- A driver whose probe always fails gets no accept channel, and is not removed when the service starts.
  -- Yet it is removed when it stops, as often as it is listed.
  pub unloaded_removed :
      (tty : Option Bytes) (a : ℕ) (node_ops : List ℕ) (s : State r)
      → ((w : r.World) → is_neg (r.probe a w).0 ≡ true)
      → (channels_of a (node_start r tty node_ops s).1.accept_channel_list ≡ 0)
        × (occurs a (node_start r tty node_ops s).1.removed ≡ occurs a s.removed)
        × (occurs a (node_stop r node_ops (node_start r tty node_ops s).1).removed
            ≡ occurs a s.removed + occurs a node_ops)
  unfolding node_start node_stop NotProbed channels_of
  unloaded_removed tty a node_ops s h =
      let (o, c) = start_all-kept tty a node_ops (record s { accept_channel_list = [] }) h in
      (
        c,
        o,
        stop_all-occurs a node_ops
              (start_all r tty node_ops (record s { accept_channel_list = [] }))
            ∙ ap (λ n. n + occurs a node_ops) o,
      )
