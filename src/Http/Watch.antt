-- ===== src/Http/Watch.antt =====
-- src/proto-http.c: the watches of `http_async` and their timers.
use knot_service_source.Common.{
  ℕ, suc, ◌+◌, ◌%◌, ◌^◌, ℤ, pos, Bool, true, false, Option, none, some, List, [], ◌∷◌, ◌++◌, take,
  lookup, erase, is_zero, if◌then◌else◌, ◌==◌,
}
use knot_service_source.Common.Monad.{
  M, ok, pure, modify, gets, fail, or_fault, dangling, ◌>>=◌, ◌>>◌,
}
use knot_service_source.Env.Messages.{Bytes}
use knot_service_source.Http.Curl.{Curl}
use knot_service_source.Env.Raw.{JsonRaw}
use knot_service_source.Http.Fetch.{empty}
use knot_service_source.Http.Driver.{Globals, Timeouts, not_made, freed, holds, http_fetch}

-- `destroy_cb` tells whether `proto_watch_destroy_cb` is set; the two functions are called with
-- `user_data`.
pub record ToFetch : Type 0 where
  pub proto_sock : ℤ
  pub uuid : Bytes
  pub token : Bytes
  pub user_data : ℕ
  pub destroy_cb : Bool

-- The calls of `proto_watch_cb` and `proto_watch_destroy_cb`.
pub data Call : Type 0 where
  watched : JsonRaw → ℕ → Call
  destroyed : ℕ → Call

module _ (c : Curl) where
  -- `ios` are ELL's live `struct l_io` of this file, with the timeout id that the function given to
  -- `l_io_set_disconnect_handler` still has to be called with.
  pub record State : Type 0 where
    pub globals : Globals
    pub heap : ℕ → Option ToFetch
    pub next : ℕ
    pub ios : ℕ → Option (Option ℕ)
    pub calls : List Call
    pub world : c.World

  abbrev pub Action : Type 0 → Type 0
  Action A = M State A

  abbrev pub deref : ℕ → Action ToFetch
  deref a s = or_fault (s.heap a) dangling s

  abbrev pub set_timeouts : Timeouts → State → State
  set_timeouts t s = record s { globals = record s.globals { timeouts = t } }

  abbrev pub write_at : ℕ → Option ToFetch → State → State
  write_at a cell s = record s { heap = λ x. if x == a then cell else s.heap x }

  abbrev pub write_io : ℕ → Option (Option ℕ) → State → State
  write_io a cell s = record s { ios = λ x. if x == a then cell else s.ios x }

  -- A NULL table takes no entry.
  abbrev pub insert : ℕ → ℕ → Timeouts → Action (Unit {0})
  insert id timeout not_made = pure tt
  insert id timeout freed = fail dangling
  insert id timeout (holds entries) = modify (set_timeouts (holds (entries ++ (id, timeout) ∷ [])))

  unfoldable pub create_timeout : ℕ → Action ℕ
  create_timeout user_data = do
    id ← gets λ s. s.globals.next_timeout_id
    timeouts ← gets λ s. s.globals.timeouts
    modify λ s. record s { globals = record s.globals { next_timeout_id = (id + 1) % 2 ^ 32 } }
    insert id user_data timeouts
    pure id

  unfoldable pub on_proto_poll_destroyed : ℕ → Action (Unit {0})
  on_proto_poll_destroyed user_data = do
    fetch_data ← deref user_data
    modify λ s. record s {
      calls =
          if fetch_data.destroy_cb then s.calls ++ destroyed fetch_data.user_data ∷ [] else s.calls;
    }
    modify (write_at user_data none)

  -- `l_timeout_remove` calls the destroy function of the timer.
  abbrev pub remove_found : ℕ → List (ℕ × ℕ) → Option ℕ → Action (Unit {0})
  remove_found id entries none = pure tt
  remove_found id entries (some timeout) = do
    modify (set_timeouts (holds (erase id entries)))
    on_proto_poll_destroyed timeout

  abbrev pub remove_from : ℕ → Timeouts → Action (Unit {0})
  remove_from id not_made = pure tt
  remove_from id freed = fail dangling
  remove_from id (holds entries) = remove_found id entries (lookup id entries)

  unfoldable pub remove_timeout : ℕ → Action (Unit {0})
  unfolding on_proto_poll_destroyed
  remove_timeout id = do timeouts ← gets λ s. s.globals.timeouts; remove_from id timeouts

  unfoldable pub on_proto_destroyed : ℕ → Action (Unit {0})
  unfolding remove_timeout
  on_proto_destroyed timeout_watch_id = remove_timeout timeout_watch_id

  -- `http_fetch` with the buffer that `memset` clears, on the globals of the state.
  unfoldable pub fetch_device : ToFetch → State → ℤ × JsonRaw × c.World
  unfolding http_fetch
  fetch_device fetch_data s =
      http_fetch c s.globals fetch_data.proto_sock fetch_data.uuid fetch_data.token empty s.world

  abbrev pub watched_if : Bool → JsonRaw → ℕ → Action (Unit {0})
  watched_if false json user_data = pure tt
  watched_if true json user_data =
      modify λ s. record s { calls = s.calls ++ watched json user_data ∷ [] }

  unfoldable pub proto_poll : ℕ → Action (Unit {0})
  unfolding fetch_device
  proto_poll user_data = do
    fetch_data ← deref user_data
    reply ← gets (fetch_device fetch_data)
    modify λ s. record s { world = reply.2 }
    watched_if (is_zero reply.0) reply.1 fetch_data.user_data

  abbrev pub outside : {A : Type 0} → (c.World → A × c.World) → Action A
  outside f s = let (x, w) = f s.world in ok (x, record s { world = w })

  -- `l_io_set_disconnect_handler` and the id of the watch, the pointer's low 32 bits; NULL takes no
  -- handler.
  abbrev pub watch_io : ℕ → Option ℕ → Action ℕ
  watch_io timeout_id none = pure 0
  watch_io timeout_id (some proto_io) = do
    modify (write_io proto_io (some (some timeout_id)))
    pure (proto_io % 2 ^ 32)

  abbrev pub new_to_fetch : ToFetch → Action ℕ
  new_to_fetch fetch_data = do
    a ← gets λ s. s.next
    modify (write_at a (some fetch_data))
    modify λ s. record s { next = suc a }
    pure a

  unfoldable pub http_async : ℕ → Bytes → Bytes → ℕ → Bool → Action ℕ
  unfolding create_timeout
  http_async proto_sock uuid token user_data destroy_cb = do
    fetch_data ← new_to_fetch (record {
      proto_sock = pos proto_sock;
      uuid = take 37 uuid;
      token = take 41 token;
      user_data = user_data;
      destroy_cb = destroy_cb;
    })
    timeout_id ← create_timeout fetch_data
    proto_io ← outside (c.l_io_new proto_sock)
    watch_io timeout_id proto_io

  abbrev pub destroy_handler : Option ℕ → Action (Unit {0})
  unfolding on_proto_destroyed
  destroy_handler none = pure tt
  destroy_handler (some timeout_id) = on_proto_destroyed timeout_id

  -- `l_io_destroy`: NULL is passed over; the destroy function of the handler is called, once.
  unfoldable pub destroy_io : ℕ → Option (Option ℕ) → Action (Unit {0})
  unfolding destroy_handler
  destroy_io proto_io none = if proto_io == 0 then pure tt else fail dangling
  destroy_io proto_io (some handler) = do modify (write_io proto_io none); destroy_handler handler

  unfoldable pub http_async_stop : ℕ → ℕ → Action (Unit {0})
  unfolding destroy_io
  http_async_stop sock watch_id = do io ← gets λ s. s.ios watch_id; destroy_io watch_id io

  -- The server closes the connection of an `l_io`: ELL calls the destroy function of the handler.
  unfoldable pub disconnected : ℕ → Action (Unit {0})
  unfolding destroy_handler
  disconnected proto_io = do
    io ← gets λ s. s.ios proto_io
    elim io [
      | none ↦ fail dangling
      | some handler ↦ do modify (write_io proto_io (some none)); destroy_handler handler
    ]

  -- `l_hashmap_destroy` with `l_timeout_remove`.
  unfoldable pub destroy_timeouts : List (ℕ × ℕ) → Action (Unit {0})
  unfolding on_proto_poll_destroyed
  destroy_timeouts [] = pure tt
  destroy_timeouts (entry ∷ entries) = do on_proto_poll_destroyed entry.1; destroy_timeouts entries

  abbrev pub destroy_table : Timeouts → Action (Unit {0})
  unfolding destroy_timeouts
  destroy_table not_made = pure tt
  destroy_table freed = fail dangling
  destroy_table (holds entries) = do destroy_timeouts entries; modify (set_timeouts freed)

  -- The URIs are freed as well.
  unfoldable pub http_remove : Action (Unit {0})
  unfolding destroy_table
  http_remove = do timeouts ← gets λ s. s.globals.timeouts; destroy_table timeouts
