-- ===== src/Ws/Places.antt =====
-- src/proto-ws.c: which websocket the index of a session finds.
use knot_service_source.Common.{
  ℕ, zero, suc, ◌+◌, ◌≤◌, ◌≡◌, refl, subst, sym, ◌∙◌, ℤ, pos, negsuc, Bool, true, false, inl, inr,
  Bool-cases, Option-cases, Option, none, some, List, [], ◌∷◌, ◌++◌, length, lookup, erase, ltb,
  if◌then◌else◌, ◌==◌, arith,
}
use knot_service_source.Common.Monad.{ok, fault, dangling, ◌>>=◌, ◌>>◌}
use knot_service_source.Common.Hoare.{
  Returns, Returns-ok->>=, Returns-weaken, Returns_run, Partly, Partly_run,
}
use knot_service_source.Ws.Table.{
  Lws, Psd, State, queue_at, write_at, ws_connect, ws_close, ws_async, ping_each, timeout_ws,
}

queue_at-snoc :
    (xs : List ℕ) (x i : ℕ)
    → length xs ≤ i
    → queue_at (xs ++ x ∷ []) i ≡ (if i == length xs then some x else none)
queue_at-snoc [] x zero p = refl
queue_at-snoc [] x (suc i) p = ground arith
queue_at-snoc (y ∷ ys) x zero p = absurd (omega arith)
queue_at-snoc (y ∷ ys) x (suc i) p = ground (arith, queue_at-snoc ys x i)

length-snoc : (xs : List ℕ) (x : ℕ) → length (xs ++ x ∷ []) ≡ length xs + 1
length-snoc [] x = refl
length-snoc (y ∷ ys) x = omega (arith, length-snoc ys x)

-- What a call finds for a descriptor.
pub slot : (l : Lws) → ℕ → State l → Option ℕ
slot l sock s = elim (lookup sock s.wstable) [
  | none ↦ none
  | some psd ↦ elim (s.heap psd) [ none ↦ none | some t ↦ queue_at s.wsis t.index ]
]

lookup-snoc :
    (k v : ℕ) (m : List (ℕ × ℕ)) → lookup k m ≡ none → lookup k (m ++ (k, v) ∷ []) ≡ some v
lookup-snoc k v [] h = ground arith
lookup-snoc k v (e ∷ m) h = ground (arith, lookup-snoc k v m)

slot_at :
    (l : Lws) (sock psd : ℕ) (t : Psd) (s : State l)
    → lookup sock s.wstable ≡ some psd
    → s.heap psd ≡ some t
    → slot l sock s ≡ queue_at s.wsis t.index
unfolding slot
slot_at l sock psd t s p q = rw (p, q, slot) refl

module _ (l : Lws) where
  -- The states between two calls.
  pub data Reachable : State l → Type 0 where
    probed :
        (world : l.World)
        → Reachable (record {
          heap = λ _. none;
          next = 0;
          wstable = [];
          wsis = [];
          conn_index = 0;
          world = world;
        })
    after_connect :
        (s s' : State l) (r : ℤ) → Reachable s → ws_connect l s ≡ ok (r, s') → Reachable s'
    after_close :
        (s s' : State l) (sock : ℕ) → Reachable s → ws_close l sock s ≡ ok (tt, s') → Reachable s'
    after_async :
        (s s' : State l) (sock : ℕ) (r : Bool)
        → Reachable s
        → ws_async l sock s ≡ ok (r, s')
        → Reachable s'
    elsewhere :
        (s : State l) (world : l.World) → Reachable s → Reachable (record s { world = world })

  -- No more websockets than indices.
  abbrev InOrder : State l → Type 0
  InOrder s = length s.wsis ≤ s.conn_index

  connect-InOrder : (s : State l) → InOrder s → Returns (λ _ s'. InOrder s') (ws_connect l s)
  unfolding Returns ws_connect
  connect-InOrder s p = elim (Bool-cases (l.established (l.connect_via_info s.world).1).0) [
    | inl up ↦
        rw (up, ws_connect, Returns)
          (omega (arith, length-snoc s.wsis (l.connect_via_info s.world).0))
    | inr down ↦ rw (down, ws_connect, Returns) (omega arith)
  ]

  close-InOrder :
      (sock : ℕ) (s : State l) → InOrder s → Partly (λ _ s'. InOrder s') (ws_close l sock s)
  unfolding Partly ws_close
  close-InOrder sock s p = elim (Option-cases (lookup sock s.wstable)) [
    | inl q ↦ rw (q, ws_close, Partly) p
    | inr (a, q) ↦ elim (Option-cases (s.heap a)) [
      | inl r ↦ rw (q, r, ws_close, Partly) tt
      | inr (t, r) ↦ rw (q, r, ws_close, Partly) p
    ]
  ]

  async-InOrder :
      (sock : ℕ) (s : State l) → InOrder s → Partly (λ _ s'. InOrder s') (ws_async l sock s)
  unfolding Partly ws_async
  async-InOrder sock s p = elim (Option-cases (lookup sock s.wstable)) [
    | inl q ↦ rw (q, ws_async, Partly) p
    | inr (a, q) ↦ rw (q, ws_async, Partly) p
  ]

  Reachable-InOrder : (s : State l) → Reachable s → InOrder s
  Reachable-InOrder _ (probed w) = omega arith
  Reachable-InOrder _ (after_connect s s' r run p) =
      Returns_run (λ _ s''. InOrder s'') (ws_connect l s) r s'
        (connect-InOrder s (Reachable-InOrder s run)) p
  Reachable-InOrder _ (after_close s s' sock run p) =
      Partly_run (λ _ s''. InOrder s'') (ws_close l sock s) tt s'
        (close-InOrder sock s (Reachable-InOrder s run)) p
  Reachable-InOrder _ (after_async s s' sock r run p) =
      Partly_run (λ _ s''. InOrder s'') (ws_async l sock s) r s'
        (async-InOrder sock s (Reachable-InOrder s run)) p
  Reachable-InOrder _ (elsewhere s w run) = Reachable-InOrder s run

-- A new connection's descriptor finds its websocket exactly where as many websockets are listed as
-- connections were tried before; else it finds none.
connection_lem :
    (l : Lws) (s : State l) (ws : ℕ) (w w' : l.World)
    → Reachable l s
    → l.connect_via_info s.world ≡ (ws, w)
    → l.established w ≡ (true, w')
    → lookup (l.socket_fd ws) s.wstable ≡ none
    → Returns
        (λ r s'.
          (r ≡ pos (l.socket_fd ws))
          × (slot l (l.socket_fd ws) s'
              ≡ (if s.conn_index == length s.wsis then some ws else none)))
        (ws_connect l s)
unfolding Returns ws_connect
connection_lem l s ws w w' run made up new =
    let t0 : Psd = record { index = s.conn_index; interval = 0 } in
    let t : Psd = record t0 { interval = l.seconds w' } in
    let s' : State l = record (write_at l s.next (some t) (write_at l s.next (some t0) s)) {
      next = suc s.next;
      conn_index = s.conn_index + 1;
      wsis = s.wsis ++ ws ∷ [];
      wstable = s.wstable ++ (l.socket_fd ws, s.next) ∷ [];
      world = w';
    } in
    rw (made, up, Returns, made)
      (
        refl,
        slot_at l (l.socket_fd ws) s.next t s' (lookup-snoc (l.socket_fd ws) s.next s.wstable new)
              (ground arith)
            ∙ queue_at-snoc s.wsis ws s.conn_index (Reachable-InOrder l s run),
      )

-- The state after a connection that failed: its index is used up.
failed_connect : (l : Lws) → State l → l.World → State l
failed_connect l s w =
    record (write_at l s.next none
      (write_at l s.next (some (record { index = s.conn_index; interval = 0 })) s)) {
        next = suc s.next;
        conn_index = s.conn_index + 1;
        world = w;
      }

connect-failed :
    (l : Lws) (s : State l) (ws : ℕ) (w w' : l.World)
    → l.connect_via_info s.world ≡ (ws, w)
    → l.established w ≡ (false, w')
    → ws_connect l s ≡ ok (negsuc l.connection_refused, failed_connect l s w')
unfolding ws_connect failed_connect
connect-failed l s ws w w' made down = rw (made, down, ws_connect, ◌>>=◌) refl

-- After a connection that failed, the next one that stands is not found by its descriptor: its index
-- counts the attempt that failed, and the list of websockets does not.
pub lost_connection :
    (l : Lws) (s : State l) (ws0 ws : ℕ) (w0 w0' w w' : l.World)
    → Reachable l s
    → l.connect_via_info s.world ≡ (ws0, w0)
    → l.established w0 ≡ (false, w0')
    → l.connect_via_info w0' ≡ (ws, w)
    → l.established w ≡ (true, w')
    → lookup (l.socket_fd ws) s.wstable ≡ none
    → Returns
        (λ r s'. (r ≡ pos (l.socket_fd ws)) × (slot l (l.socket_fd ws) s' ≡ none))
        ((ws_connect l >> ws_connect l) s)
unfolding failed_connect
lost_connection l s ws0 ws w0 w0' w w' run made0 down made up new =
    let s1 = failed_connect l s w0' in
    let first = connect-failed l s ws0 w0 w0' made0 down in
    Returns-ok->>= (λ r s'. (r ≡ pos (l.socket_fd ws)) × (slot l (l.socket_fd ws) s' ≡ none))
      (ws_connect l) (λ _. ws_connect l) (negsuc l.connection_refused) s s1 first
      (Returns-weaken
        (λ r s'.
          (r ≡ pos (l.socket_fd ws))
          × (slot l (l.socket_fd ws) s'
              ≡ (if s1.conn_index == length s1.wsis then some ws else none)))
        (λ r s'. (r ≡ pos (l.socket_fd ws)) × (slot l (l.socket_fd ws) s' ≡ none)) (ws_connect l s1)
        (connection_lem l s1 ws w w' (after_connect s s1 (negsuc l.connection_refused) run first)
          made up new)
        λ r s' (p, q). (p, q ∙ ground (arith, Reachable-InOrder l s run)))

erase-snoc :
    (k v : ℕ) (e : ℕ × ℕ) (m : List (ℕ × ℕ))
    → lookup k m ≡ some v
    → erase k (m ++ e ∷ []) ≡ erase k m ++ e ∷ []
erase-snoc k v e [] h = absurd (cc)
erase-snoc k v e (x ∷ m) h = ground (arith, erase-snoc k v e m)

lookup-kept :
    (k v : ℕ) (e : ℕ × ℕ) (m : List (ℕ × ℕ)) → lookup k m ≡ some v → lookup k (m ++ e ∷ []) ≡ some v
lookup-kept k v e [] h = absurd (cc)
lookup-kept k v e (x ∷ m) h = ground (arith, lookup-kept k v e m)

ping_each-dangling :
    (l : Lws) (timenow k a : ℕ) (m : List (ℕ × ℕ)) (s : State l)
    → s.heap a ≡ none
    → ping_each l timenow (m ++ (k, a) ∷ []) s ≡ fault dangling
unfolding ping_each
ping_each-dangling l timenow k a [] s h = rw (h, ping_each, ◌>>=◌) refl
ping_each-dangling l timenow k a ((j, b) ∷ m) s h = elim (Option-cases (s.heap b)) [
  | inl p ↦ rw (p, ping_each, ◌>>=◌) refl
  | inr (t, p) ↦ elim (Bool-cases (ltb (t.interval + 10) timenow)) [
    | inl q ↦
        rw (p, q, ping_each, ◌>>=◌)
          (ping_each-dangling l timenow k a m
            (record (write_at l b (some (record t { interval = l.seconds s.world })) s) {
              world = l.write_out (queue_at s.wsis t.index) s.world;
            })
            (ground arith))
    | inr q ↦ rw (p, q, ping_each, ◌>>=◌) (ping_each-dangling l timenow k a m s h)
  ]
]

-- Where a device's changes were watched on a connection, closing the connection leaves the table with an
-- entry for the data that was freed: the next timeout reads it.
pub watched_close :
    (l : Lws) (s : State l) (sock a : ℕ) (t : Psd)
    → lookup sock s.wstable ≡ some a
    → s.heap a ≡ some t
    → Returns (λ _ s'. timeout_ws l s' ≡ fault dangling) ((ws_async l sock >> ws_close l sock) s)
unfolding Returns ws_async ws_close timeout_ws
watched_close l s sock a t found at_a =
    let s1 : State l = record s { wstable = s.wstable ++ (sock, a) ∷ [] } in
    let s2 : State l = record (write_at l a none s1) {
      wstable = erase sock s1.wstable;
      world = l.service (l.write_out (queue_at s.wsis t.index) s.world);
    } in
    rw (found, Returns, lookup-kept sock a (sock, a) s.wstable found, at_a)
      (subst
        (λ m.
          ping_each l (l.seconds (l.write_out (queue_at s.wsis t.index) s.world)) m s2
          ≡ fault dangling)
        (sym (erase-snoc sock a (sock, a) s.wstable found))
        (ping_each-dangling l (l.seconds (l.write_out (queue_at s.wsis t.index) s.world)) sock a
          (erase sock s.wstable) s2 (ground arith)))
