-- ===== src/Http/Watched.antt =====
-- src/proto-http.c: what the watches hold, whatever ids, tables and timers stand for them.
use knot_service_source.Common.{
  ℕ, suc, ◌+◌, ◌%◌, ◌^◌, ◌<◌, ◌≡◌, ◌≢◌, refl, inl, inr, pos, Bool, Option-cases, Option, none, some,
  List, [], ◌∷◌, ◌++◌, take, lookup, erase, IsDistinct, lookup-erase_ne, lookup-erase_self,
  erase-IsDistinct, if◌then◌else◌, ◌==◌, arith,
}
use knot_service_source.Common.Monad.{ok, ◌>>=◌, ◌>>◌}
use knot_service_source.Env.Messages.{Bytes}
use knot_service_source.Http.Curl.{Curl}
use knot_service_source.Http.Driver.{not_made, freed, holds}
use knot_service_source.Http.Watch.{
  ToFetch, destroyed, State, create_timeout, on_proto_poll_destroyed, remove_timeout,
  on_proto_destroyed, http_async, http_async_stop, destroy_io, disconnected,
}

pub lookup-snoc :
    (k i f : ℕ) (m : List (ℕ × ℕ))
    → lookup i m ≡ none
    → lookup k (m ++ (i, f) ∷ []) ≡ (if k == i then some f else lookup k m)
lookup-snoc k i f [] h = ground arith
lookup-snoc k i f (e ∷ m) h = ground (arith, lookup-snoc k i f m)

snoc-IsDistinct :
    (i f : ℕ) (m : List (ℕ × ℕ)) → lookup i m ≡ none → IsDistinct m → IsDistinct (m ++ (i, f) ∷ [])
snoc-IsDistinct i f [] h d = (refl, tt)
snoc-IsDistinct i f (e ∷ m) h d =
    (ground (arith, lookup-snoc e.0 i f m), snoc-IsDistinct i f m (ground arith) d.1)

-- What `http_async` copies.
abbrev pub to_fetch : ℕ → Bytes → Bytes → ℕ → Bool → ToFetch
to_fetch sock uuid token user_data destroy_cb = record {
  proto_sock = pos sock;
  uuid = take 37 uuid;
  token = take 41 token;
  user_data = user_data;
  destroy_cb = destroy_cb;
}

module _ (c : Curl) where
  -- The watch of an id, where its connection stands.
  unfoldable pub watch_of : State c → ℕ → Option ToFetch
  watch_of s id = elim (s.ios id) [
    | none ↦ none
    | some none ↦ none
    | some (some timeout_id) ↦ elim s.globals.timeouts [
      | not_made ↦ none
      | freed ↦ none
      | holds entries ↦ elim (lookup timeout_id entries) [ none ↦ none | some f ↦ s.heap f ]
    ]
  ]

  pub record Inv (s : State c) : Type 0 where
    pub entries : List (ℕ × ℕ)
    pub table : s.globals.timeouts ≡ holds entries
    pub distinct : IsDistinct entries
    pub ids : (i f : ℕ) → lookup i entries ≡ some f → i < s.globals.next_timeout_id
    pub addresses : (f : ℕ) (v : ToFetch) → s.heap f ≡ some v → f < s.next
    pub one_each : (i j f : ℕ) → lookup i entries ≡ some f → lookup j entries ≡ some f → i ≡ j
    pub live : (i f : ℕ) → lookup i entries ≡ some f → s.heap f ≢ none
    pub io_live : (a i : ℕ) → s.ios a ≡ some (some i) → lookup i entries ≢ none
    pub io_one : (a b i : ℕ) → s.ios a ≡ some (some i) → s.ios b ≡ some (some i) → a ≡ b

  -- The state after a watch of `v` is made at `a`.
  abbrev pub started : State c → List (ℕ × ℕ) → ToFetch → Option ℕ → c.World → State c
  started s m v io w = record {
    globals = record s.globals {
      timeouts = holds (m ++ (s.globals.next_timeout_id, s.next) ∷ []);
      next_timeout_id = (s.globals.next_timeout_id + 1) % 2 ^ 32;
    };
    heap = λ x. if x == s.next then some v else s.heap x;
    next = suc s.next;
    ios = λ x. elim io [
      | none ↦ s.ios x
      | some a ↦ if x == a then some (some s.globals.next_timeout_id) else s.ios x
    ];
    calls = s.calls;
    world = w;
  }

  pub http_async-started :
      (s : State c) (m : List (ℕ × ℕ)) (sock : ℕ) (uuid token : Bytes) (user_data : ℕ) (cb : Bool)
      → s.globals.timeouts ≡ holds m
      → (a : ℕ) → (c.l_io_new sock s.world).0 ≡ some a
      → http_async c sock uuid token user_data cb s
        ≡ ok (
          a % 2 ^ 32,
          started s m (to_fetch sock uuid token user_data cb) (some a) (c.l_io_new sock s.world).1,
        )
  unfolding http_async create_timeout
  http_async-started s m sock uuid token user_data cb table a q = rw (table, q) refl

  on_proto_poll_destroyed-run :
      (s : State c) (f : ℕ) (v : ToFetch)
      → s.heap f ≡ some v
      → on_proto_poll_destroyed c f s
        ≡ ok (
          tt,
          record s {
            heap = λ x. if x == f then none else s.heap x;
            calls = if v.destroy_cb then s.calls ++ destroyed v.user_data ∷ [] else s.calls;
          },
        )
  unfolding on_proto_poll_destroyed
  on_proto_poll_destroyed-run s f v cell = rw (on_proto_poll_destroyed, ◌>>◌, ◌>>=◌, cell) refl

  -- The end of the timer of an id.
  abbrev pub ended : State c → List (ℕ × ℕ) → ℕ → ℕ → ToFetch → State c
  ended s m i f v = record s {
    globals = record s.globals { timeouts = holds (erase i m) };
    heap = λ x. if x == f then none else s.heap x;
    calls = if v.destroy_cb then s.calls ++ destroyed v.user_data ∷ [] else s.calls;
  }

  remove_timeout-run :
      (s : State c) (m : List (ℕ × ℕ)) (i f : ℕ) (v : ToFetch)
      → s.globals.timeouts ≡ holds m
      → lookup i m ≡ some f
      → s.heap f ≡ some v
      → remove_timeout c i s ≡ ok (tt, ended s m i f v)
  unfolding remove_timeout
  remove_timeout-run s m i f v table entry cell =
      rw (table, entry)
        (on_proto_poll_destroyed-run
          (record s { globals = record s.globals { timeouts = holds (erase i m) } }) f v cell)

  pub http_async_stop-run :
      (s : State c) (m : List (ℕ × ℕ)) (sock a i f : ℕ) (v : ToFetch)
      → s.globals.timeouts ≡ holds m
      → s.ios a ≡ some (some i)
      → lookup i m ≡ some f
      → s.heap f ≡ some v
      → http_async_stop c sock a s
        ≡ ok (tt, ended (record s { ios = λ x. if x == a then none else s.ios x }) m i f v)
  unfolding http_async_stop destroy_io on_proto_destroyed
  http_async_stop-run s m sock a i f v table io entry cell =
      rw (io, destroy_io, on_proto_destroyed)
        (remove_timeout-run (record s { ios = λ x. if x == a then none else s.ios x }) m i f v table
          entry cell)

  pub disconnected-run :
      (s : State c) (m : List (ℕ × ℕ)) (a i f : ℕ) (v : ToFetch)
      → s.globals.timeouts ≡ holds m
      → s.ios a ≡ some (some i)
      → lookup i m ≡ some f
      → s.heap f ≡ some v
      → disconnected c a s
        ≡ ok (tt, ended (record s { ios = λ x. if x == a then some none else s.ios x }) m i f v)
  unfolding disconnected on_proto_destroyed
  disconnected-run s m a i f v table io entry cell =
      rw (io, on_proto_destroyed)
        (remove_timeout-run (record s { ios = λ x. if x == a then some none else s.ios x }) m i f v
          table entry cell)

  -- The next id is in no entry, and an entry's timer has an address below the next one.
  pub new_id : (s : State c) (h : Inv s) → lookup s.globals.next_timeout_id h.entries ≡ none
  new_id s h = elim (Option-cases (lookup s.globals.next_timeout_id h.entries)) [
    | inl p ↦ p
    | inr (f, p) ↦ absurd (omega (arith, h.ids s.globals.next_timeout_id f p))
  ]

  pub below_next : (s : State c) (h : Inv s) (i f : ℕ) → lookup i h.entries ≡ some f → f < s.next
  below_next s h i f p = elim (Option-cases (s.heap f)) [
    | inl q ↦ absurd (h.live i f p q)
    | inr (u, q) ↦ h.addresses f u q
  ]

  pub started-Inv :
      (s : State c) (h : Inv s) (v : ToFetch) (a : ℕ) (w : c.World)
      → s.globals.next_timeout_id + 1 < 2 ^ 32
      → s.ios a ≡ none
      → Inv (started s h.entries v (some a) w)
  started-Inv s h v a w small fresh = record {
    entries = h.entries ++ (s.globals.next_timeout_id, s.next) ∷ [];
    table = refl;
    distinct = snoc-IsDistinct n s.next h.entries new h.distinct;
    ids = λ i f p. ground (arith, added i, h.ids i f);
    addresses = λ f u p. ground (arith, h.addresses f u);
    one_each =
        λ i j f p q. ground (arith, added i, added j, h.one_each i j f, below i f, below j f);
    live = λ i f p. ground (arith, added i, h.live i f);
    io_live = λ b i p. ground (arith, added i, h.io_live b i);
    io_one = λ b d i p q. ground (arith, h.io_one b d i, h.io_live b n, h.io_live d n, new);
  }
    where
      n : ℕ
      n = s.globals.next_timeout_id

      new : lookup n h.entries ≡ none
      new = new_id s h

      added :
          (i : ℕ)
          → lookup i (h.entries ++ (n, s.next) ∷ [])
            ≡ (if i == n then some s.next else lookup i h.entries)
      added i = lookup-snoc i n s.next h.entries new

      below : (i f : ℕ) → lookup i h.entries ≡ some f → f < s.next
      below = below_next s h

  -- The end of the watch at `a`: `left` is what becomes of its `struct l_io`.
  pub ended-Inv :
      (s : State c) (h : Inv s) (a i f : ℕ) (v : ToFetch) (left : Option (Option ℕ))
      → s.ios a ≡ some (some i)
      → lookup i h.entries ≡ some f
      → ((j : ℕ) → left ≢ some (some j))
      → Inv (ended (record s { ios = λ x. if x == a then left else s.ios x }) h.entries i f v)
  ended-Inv s h a i f v left io entry gone = record {
    entries = erase i h.entries;
    table = refl;
    distinct = erase-IsDistinct i h.entries h.distinct;
    ids = λ j e p. ground (arith, kept j, none_left, h.ids j e);
    addresses = λ e u p. ground (arith, h.addresses e u);
    one_each = λ j k e p q. ground (arith, kept j, kept k, none_left, h.one_each j k e);
    live = λ j e p. ground (arith, kept j, none_left, h.live j e, h.one_each i j f);
    io_live = λ b j p. ground (arith, kept j, h.io_live b j, h.io_one a b i, gone j);
    io_one = λ b d j p q. ground (arith, h.io_one b d j, gone j);
  }
    where
      none_left : lookup i (erase i h.entries) ≡ none
      none_left = lookup-erase_self i h.entries h.distinct

      kept : (j : ℕ) → j ≢ i → lookup j (erase i h.entries) ≡ lookup j h.entries
      kept j = lookup-erase_ne j i h.entries
