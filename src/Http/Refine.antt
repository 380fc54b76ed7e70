-- ===== src/Http/Refine.antt =====
-- src/proto-http.c: sequences of watches, polls and stops.
use knot_service_source.Common.{
  ℕ, ◌+◌, ◌%◌, ◌^◌, ◌<◌, ◌≤◌, ◌≡◌, ◌≢◌, refl, sym, ap, subst, ◌∙◌, inl, inr, is_zero, Bool, false,
  Bool-cases, none, some, List, [], ◌∷◌, ◌++◌, if◌then◌else◌, ◌==◌, arith,
}
use knot_service_source.Common.Monad.{ok, fault, dangling, ◌>>=◌, ◌>>◌}
use knot_service_source.Common.Hoare.{Returns, ok->>=, Returns_run, Returns-weaken}
use mathlib.Core.List.{append-nil}
use knot_service_source.Env.Messages.{Bytes}
use knot_service_source.Http.Curl.{Curl}
use knot_service_source.Http.Driver.{Globals, holds}
use knot_service_source.Http.Watch.{
  ToFetch, Call, destroyed, State, proto_poll, http_async, http_async_stop, fetch_device,
  destroy_io,
}
use knot_service_source.Http.Watched.{
  watch_of, Inv, started, to_fetch, http_async-started, http_async_stop-run, disconnected-run,
  started-Inv, ended-Inv,
}
use knot_service_source.Http.Views.{watch_of-parts, watch_of-started, watch_of-ended}
use knot_service_source.Http.Events.{
  Event, watch, stop, hang_up, poll, Watches, apply, replay, run, ended_call, polled_call, notices,
  Allowed, Reached, probed, step,
}

apply_cong :
    (k : Event) (r : ℕ) (w w' : Watches)
    → ((id : ℕ) → w id ≡ w' id)
    → (id : ℕ) → apply k r w id ≡ apply k r w' id
unfolding apply
apply_cong (watch sock uuid token user_data cb) r w w' h id = rw (h id) refl
apply_cong (stop sock a) r w w' h id = rw (h id) refl
apply_cong (hang_up a) r w w' h id = rw (h id) refl
apply_cong (poll f) r w w' h id = h id

module _ (c : Curl) where
  -- What an event does in a state with the invariant.
  Effect : Event → State c → ℕ → State c → Type 0
  Effect k s r s' =
      Inv c s'
      × ((id : ℕ) → watch_of c s' id ≡ apply k r (watch_of c s) id)
      × (s'.calls ≡ s.calls ++ notices c k s)

  watch-Effect :
      (s : State c) (h : Inv c s) (sock : ℕ) (uuid token : Bytes) (user_data : ℕ) (cb : Bool)
      → Allowed c (watch sock uuid token user_data cb) s
      → Returns
          (Effect (watch sock uuid token user_data cb) s)
          (run c (watch sock uuid token user_data cb) s)
  unfolding Returns Allowed Effect apply notices
  watch-Effect s h sock uuid token user_data cb (a, io, fresh, fits, small) =
      let v = to_fetch sock uuid token user_data cb in
      let w = (c.l_io_new sock s.world).1 in
      rw (http_async-started c s h.entries sock uuid token user_data cb h.table a io)
        (started-Inv c s h v a w small fresh, view a v w fits small fresh, sym (append-nil s.calls))
    where
      view :
          (a : ℕ) (v : ToFetch) (w : c.World)
          → a < 2 ^ 32
          → s.globals.next_timeout_id + 1 < 2 ^ 32
          → s.ios a ≡ none
          → (id : ℕ)
          → watch_of c (started c s h.entries v (some a) w) id
            ≡ (if id == a % 2 ^ 32 then some v else watch_of c s id)
      view a v w fits small fresh id =
          subst
            (λ r.
              watch_of c (started c s h.entries v (some a) w) id
              ≡ (if id == r then some v else watch_of c s id))
            (omega arith) (watch_of-started c s h v a w small fresh id)

  -- The call that the end of a watch makes.
  ended_calls :
      (s : State c) (a : ℕ) (v : ToFetch)
      → watch_of c s a ≡ some v
      → (if v.destroy_cb then s.calls ++ destroyed v.user_data ∷ [] else s.calls)
        ≡ s.calls ++ ended_call c (watch_of c s a)
  ended_calls s a v w = elim (Bool-cases v.destroy_cb) [
    | inl p ↦ rw (w, p) refl
    | inr p ↦ rw (w, p) (sym (append-nil s.calls))
  ]

  proto_poll-run :
      (s : State c) (f : ℕ) (v : ToFetch)
      → s.heap f ≡ some v
      → proto_poll c f s
        ≡ ok (
          tt,
          record s { world = (fetch_device c v s).2; calls = s.calls ++ polled_call c (some v) s },
        )
  unfolding proto_poll
  proto_poll-run s f v cell = elim (Bool-cases (is_zero (fetch_device c v s).0)) [
    | inl p ↦ rw (proto_poll, ◌>>=◌, cell, p) refl
    | inr p ↦
        rw (proto_poll, ◌>>=◌, cell, p)
          (ap (λ l. ok (tt, record s { world = (fetch_device c v s).2; calls = l }))
            (sym (append-nil s.calls)))
  ]

  polled-Inv :
      (s : State c) (h : Inv c s) (world : c.World) (calls : List Call)
      → Inv c (record s { world = world; calls = calls })
  polled-Inv s h world calls = record {
    entries = h.entries;
    table = h.table;
    distinct = h.distinct;
    ids = h.ids;
    addresses = h.addresses;
    one_each = h.one_each;
    live = h.live;
    io_live = h.io_live;
    io_one = h.io_one;
  }

  run-Effect :
      (s : State c) (h : Inv c s) (k : Event) → Allowed c k s → Returns (Effect k s) (run c k s)
  unfolding Returns Allowed Effect apply notices watch_of
  run-Effect s h (watch sock uuid token user_data cb) ok_to =
      watch-Effect s h sock uuid token user_data cb ok_to
  run-Effect s h (stop sock a) (v, w) =
      let (i, f, io, entry, cell) = watch_of-parts c s h a v w in
      rw (http_async_stop-run c s h.entries sock a i f v h.table io entry cell, ◌>>=◌)
        (
          ended-Inv c s h a i f v none io entry (λ j. ground arith),
          watch_of-ended c s h a i f v none io entry (λ j. ground arith),
          ended_calls s a v w,
        )
  run-Effect s h (hang_up a) (v, w) =
      let (i, f, io, entry, cell) = watch_of-parts c s h a v w in
      rw (disconnected-run c s h.entries a i f v h.table io entry cell, ◌>>◌, ◌>>=◌)
        (
          ended-Inv c s h a i f v (some none) io entry (λ j. ground arith),
          watch_of-ended c s h a i f v (some none) io entry (λ j. ground arith),
          ended_calls s a v w,
        )
  run-Effect s h (poll f) (v, cell) =
      rw (proto_poll-run s f v cell, ◌>>◌, ◌>>=◌)
        (
          polled-Inv s h (fetch_device c v s).2 (s.calls ++ polled_call c (some v) s),
          λ id. refl,
          rw (cell) refl,
        )

  probed-Inv :
      (globals : Globals) (world : c.World)
      → globals.timeouts ≡ holds []
      → Inv c (record {
        globals = globals;
        heap = λ _. none;
        next = 0;
        ios = λ _. none;
        calls = [];
        world = world;
      })
  probed-Inv globals world table = record {
    entries = [];
    table = table;
    distinct = tt;
    ids = λ i f p. ground arith;
    addresses = λ f v p. ground arith;
    one_each = λ i j f p q. ground arith;
    live = λ i f p. ground arith;
    io_live = λ a i p. ground arith;
    io_one = λ a b i p q. ground arith;
  }

  Reached-Inv :
      {history : List (Event × ℕ)} {s : State c}
      → Reached c history s
      → Inv c s × ((id : ℕ) → watch_of c s id ≡ replay history id)
  unfolding Effect replay watch_of
  Reached-Inv (probed globals world table) = (probed-Inv globals world table, λ id. refl)
  Reached-Inv (step {history} {s} {s'} k r reached allowed ran) =
      let (h, view) = Reached-Inv reached in
      let (h', view', calls) =
        Returns_run (Effect k s) (run c k s) r s' (run-Effect s h k allowed) ran in
      (h', λ id. view' id ∙ apply_cong k r (watch_of c s) (replay history) view id)

  -- After every history in which each new `struct l_io` stands at an unused address below 2^32 and fewer
  -- than 2^32 timeouts are made, in which watches are stopped and their connections close only while
  -- they are there, each id holds what the history says: the watch that was made under it, until it is
  -- stopped or its connection closes. Every such event returns and keeps this so, and the destroy
  -- function is called exactly when a watch ends, the watch function when a poll reads the device.
  pub watches-replay :
      (history : List (Event × ℕ)) (s : State c)
      → Reached c history s
      → (k : Event) → Allowed c k s
      → ((id : ℕ) → watch_of c s id ≡ replay history id)
        × Returns
            (λ r s'.
              ((id : ℕ) → watch_of c s' id ≡ replay ((k, r) ∷ history) id)
              × (s'.calls ≡ s.calls ++ notices c k s))
            (run c k s)
  unfolding Effect replay
  watches-replay history s reached k allowed =
      let (h, view) = Reached-Inv reached in
      (
        view,
        Returns-weaken (Effect k s)
            (λ r s'.
              ((id : ℕ) → watch_of c s' id ≡ replay ((k, r) ∷ history) id)
              × (s'.calls ≡ s.calls ++ notices c k s))
            (run c k s) (run-Effect s h k allowed)
            (λ r s' (h', view', calls).
              (λ id. view' id ∙ apply_cong k r (watch_of c s) (replay history) view id, calls)),
      )

  -- A new watch whose `struct l_io` stands at or above 2^32 returns an id that is not its address: to stop it
  -- under that id uses an address that is of no `struct l_io`, unless its low 32 bits are 0 or another's address.
  pub cut_watch_id :
      (history : List (Event × ℕ)) (s : State c)
      → Reached c history s
      → (sock : ℕ) (uuid token : Bytes) (user_data : ℕ) (cb : Bool) (a : ℕ)
      → (c.l_io_new sock s.world).0 ≡ some a
      → 2 ^ 32 ≤ a
      → s.ios (a % 2 ^ 32) ≡ none
      → a % 2 ^ 32 ≢ 0
      → (http_async c sock uuid token user_data cb >>= http_async_stop c sock) s ≡ fault dangling
  unfolding http_async_stop destroy_io
  cut_watch_id history s reached sock uuid token user_data cb a io high other nonzero =
      let (h, view) = Reached-Inv reached in
      ok->>= (http_async c sock uuid token user_data cb) (http_async_stop c sock) (a % 2 ^ 32) s
        (started c s h.entries (to_fetch sock uuid token user_data cb) (some a)
          (c.l_io_new sock s.world).1)
        (http_async-started c s h.entries sock uuid token user_data cb h.table a io)
      ∙ rw (differs, other, destroy_io, not_null) refl
    where
      differs : ((a % 2 ^ 32) == a) ≡ false
      differs = ground arith

      not_null : ((a % 2 ^ 32) == 0) ≡ false
      not_null = ground arith
