-- ===== src/Http/Events.antt =====
-- src/proto-http.c: what happens to the watches, and what a client sees of it.
use knot_service_source.Common.{
  ℕ, ◌+◌, ◌^◌, ◌<◌, ◌≡◌, is_zero, Bool, Option, none, some, List, [], ◌∷◌, if◌then◌else◌, ◌==◌,
}
use knot_service_source.Common.Monad.{ok, pure, ◌>>◌}
use knot_service_source.Env.Messages.{Bytes}
use knot_service_source.Http.Curl.{Curl}
use knot_service_source.Http.Driver.{Globals, holds}
use knot_service_source.Http.Watch.{
  ToFetch, Call, watched, destroyed, State, Action, proto_poll, http_async, http_async_stop,
  disconnected, fetch_device,
}
use knot_service_source.Http.Watched.{watch_of, to_fetch}

-- What happens to the watches; a poll is given by the user data of its timer.
pub data Event : Type 0 where
  watch : (sock : ℕ) (uuid token : Bytes) (user_data : ℕ) (destroy_cb : Bool) → Event
  stop : (sock watch_id : ℕ) → Event
  hang_up : (proto_io : ℕ) → Event
  poll : (fetch_data : ℕ) → Event

-- The watches as a client sees them: what each id holds.
abbrev pub Watches : Type 0
Watches = ℕ → Option ToFetch

abbrev drop : ℕ → Watches → Watches
drop id w x = if x == id then none else w x

-- The effect of an event, which returns `r`, on the watches.
unfoldable pub apply : Event → ℕ → Watches → Watches
apply (watch sock uuid token user_data destroy_cb) r w =
    λ x. if x == r then some (to_fetch sock uuid token user_data destroy_cb) else w x
apply (stop sock watch_id) r w = drop watch_id w
apply (hang_up proto_io) r w = drop proto_io w
apply (poll fetch_data) r w = w

-- The watches after a history.
unfoldable pub replay : List (Event × ℕ) → Watches
replay [] = λ id. none
replay ((k, r) ∷ history) = apply k r (replay history)

module _ (c : Curl) where
  abbrev pub run : Event → Action c ℕ
  run (watch sock uuid token user_data destroy_cb) =
      http_async c sock uuid token user_data destroy_cb
  run (stop sock watch_id) = do http_async_stop c sock watch_id; pure 0
  run (hang_up proto_io) = do disconnected c proto_io; pure 0
  run (poll fetch_data) = do proto_poll c fetch_data; pure 0

  abbrev pub ended_call : Option ToFetch → List Call
  ended_call none = []
  ended_call (some v) = if v.destroy_cb then destroyed v.user_data ∷ [] else []

  abbrev pub polled_call : Option ToFetch → State c → List Call
  polled_call none s = []
  polled_call (some v) s =
      let (result, json, w) = fetch_device c v s in
      if is_zero result then watched json v.user_data ∷ [] else []

  -- The calls that an event makes.
  unfoldable pub notices : Event → State c → List Call
  notices (watch sock uuid token user_data destroy_cb) s = []
  notices (stop sock watch_id) s = ended_call (watch_of c s watch_id)
  notices (hang_up proto_io) s = ended_call (watch_of c s proto_io)
  notices (poll fetch_data) s = polled_call (s.heap fetch_data) s

  -- An event can come. The address of a new `struct l_io` is in no use, and an `unsigned int` holds it;
  -- fewer than 2^32 timeouts are made. A stop and a hang-up are of a watch that stands, a poll is of a
  -- timer that does.
  unfoldable pub Allowed : Event → State c → Type 0
  Allowed (watch sock uuid token user_data destroy_cb) s =
      (a : ℕ) × ((c.l_io_new sock s.world).0 ≡ some a)
      × (s.ios a ≡ none)
      × (a < 2 ^ 32)
      × (s.globals.next_timeout_id + 1 < 2 ^ 32)
  Allowed (stop sock watch_id) s = (v : ToFetch) × (watch_of c s watch_id ≡ some v)
  Allowed (hang_up proto_io) s = (v : ToFetch) × (watch_of c s proto_io ≡ some v)
  Allowed (poll fetch_data) s = (v : ToFetch) × (s.heap fetch_data ≡ some v)

  -- The states after a probe and the events of a history, the last one first, with what they returned.
  pub data Reached : List (Event × ℕ) → State c → Type 0 where
    probed :
        (globals : Globals) (world : c.World)
        → globals.timeouts ≡ holds []
        → Reached [] (record {
          globals = globals;
          heap = λ _. none;
          next = 0;
          ios = λ _. none;
          calls = [];
          world = world;
        })
    step :
        {history : List (Event × ℕ)} {s s' : State c} (k : Event) (r : ℕ)
        → Reached history s
        → Allowed k s
        → run k s ≡ ok (r, s')
        → Reached ((k, r) ∷ history) s'
