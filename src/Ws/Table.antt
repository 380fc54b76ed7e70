-- ===== src/Ws/Table.antt =====
-- src/proto-ws.c: connections to the cloud, found by their file descriptor. A websocket and a session's
-- data are numbers, their addresses.
use knot_service_source.Common.{
  ℕ, zero, suc, ◌+◌, ℤ, pos, negsuc, Bool, true, false, Option, none, some, List, [], ◌∷◌, ◌++◌,
  lookup, erase, ltb, if◌then◌else◌, ◌==◌,
}
use knot_service_source.Common.Monad.{M, ok, pure, modify, gets, or_fault, ◌>>=◌, ◌>>◌, dangling}

-- libwebsockets.
pub record Lws : Type 1 where
  pub World : Type 0
  -- `lws_client_connect_via_info`.
  pub connect_via_info : World → ℕ × World
  -- `lws_service` until a callback has set `connected`, or `client_connection_error`.
  pub established : World → Bool × World
  pub socket_fd : ℕ → ℕ
  -- `lws_callback_on_writable` and `lws_service`.
  pub write_out : Option ℕ → World → World
  -- `lws_service`, once.
  pub service : World → World
  -- `gettimeofday`, in seconds.
  pub seconds : World → ℕ
  pub connection_refused : ℕ

-- `struct per_session_data_ws`, as far as the table goes; `interval` is the second of the last ping.
pub record Psd : Type 0 where
  pub index : ℕ
  pub interval : ℕ

-- `queue_at`: NULL past the end.
abbrev pub queue_at : List ℕ → ℕ → Option ℕ
queue_at [] index = none
queue_at (ws ∷ rest) zero = some ws
queue_at (ws ∷ rest) (suc index) = queue_at rest index

module _ (l : Lws) where
  -- `wstable` lists the entries of a key in the order in which they were inserted.
  pub record State : Type 0 where
    pub heap : ℕ → Option Psd
    pub next : ℕ
    pub wstable : List (ℕ × ℕ)
    pub wsis : List ℕ
    pub conn_index : ℕ
    pub world : l.World

  abbrev pub Action : Type 0 → Type 0
  Action A = M State A

  abbrev pub write_at : ℕ → Option Psd → State → State
  write_at a cell s = record s { heap = λ c. if c == a then cell else s.heap c }

  abbrev pub deref : ℕ → Action Psd
  deref a s = or_fault (s.heap a) dangling s

  abbrev pub outside : {A : Type 0} → (l.World → A × l.World) → Action A
  outside f s = let (x, w) = f s.world in ok (x, record s { world = w })

  -- A connection that stands goes to the list and the table.
  abbrev pub connected : ℕ → Psd → ℕ → Bool → Action ℤ
  connected psd t ws false = do modify (write_at psd none); pure (negsuc l.connection_refused)
  connected psd t ws true = do
    modify λ s. record (write_at psd (some (record t { interval = l.seconds s.world })) s) {
      wsis = s.wsis ++ ws ∷ [];
      wstable = s.wstable ++ (l.socket_fd ws, psd) ∷ [];
    }
    pure (pos (l.socket_fd ws))

  unfoldable pub ws_connect : Action ℤ
  ws_connect = do
    psd ← gets λ s. s.next
    ws ← outside l.connect_via_info
    index ← gets λ s. s.conn_index
    modify λ s. record (write_at psd (some (record { index = index; interval = 0 })) s) {
      next = suc psd;
      conn_index = index + 1;
    }
    up ← outside l.established
    connected psd (record { index = index; interval = 0 }) ws up

  -- The websocket itself stays in the list, so that the other indices hold.
  abbrev pub close_found : ℕ → ℕ → Action (Unit {0})
  close_found sock psd = do
    t ← deref psd
    wsis ← gets λ s. s.wsis
    outside (λ w. (tt, l.write_out (queue_at wsis t.index) w))
    modify λ s. record s { wstable = erase sock s.wstable }
    modify (write_at psd none)

  unfoldable pub ws_close : ℕ → Action (Unit {0})
  ws_close sock = do
    found ← gets λ s. lookup sock s.wstable
    elim found [ none ↦ pure tt | some psd ↦ close_found sock psd ]

  -- The entry is inserted again; a missing one is -EINVAL, as an unsigned number that no watch has.
  unfoldable pub ws_async : ℕ → Action Bool
  ws_async sock = do
    found ← gets λ s. lookup sock s.wstable
    elim found [
      | none ↦ pure false
      | some value ↦ do
        modify (λ s. record s { wstable = s.wstable ++ (sock, value) ∷ [] })
        pure true
    ]

  -- A ping is due when the last one is more than ten seconds old.
  abbrev pub send_ping : ℕ → Psd → Bool → Action (Unit {0})
  send_ping psd t false = pure tt
  send_ping psd t true = do
    modify λ s. write_at psd (some (record t { interval = l.seconds s.world })) s
    wsis ← gets λ s. s.wsis
    outside (λ w. (tt, l.write_out (queue_at wsis t.index) w))

  -- `l_hashmap_foreach` with `send_ping`.
  unfoldable pub ping_each : ℕ → List (ℕ × ℕ) → Action (Unit {0})
  ping_each timenow [] = pure tt
  ping_each timenow ((sock, psd) ∷ rest) = do
    t ← deref psd
    send_ping psd t (ltb (t.interval + 10) timenow)
    ping_each timenow rest

  unfoldable pub timeout_ws : Action (Unit {0})
  unfolding ping_each
  timeout_ws = do
    timenow ← gets λ s. l.seconds s.world
    outside (λ w. (tt, l.service w))
    entries ← gets λ s. s.wstable
    ping_each timenow entries
