-- ===== src/Serial/Pipes.antt =====
-- src/node-serial.c: pipes to the things behind a serial line. Sockets and errors are numbers; the
-- buffer is a function from the index to the byte, which is indeterminate past what was read.
use Prim.Native.Nat.{bit_or}
use knot_service_source.Common.{
  ℕ, ◌+◌, ◌-◌, ◌*◌, ◌%◌, ◌^◌, Bool, ℤ, pos, negsuc, Option, none, some, List, [], ◌∷◌, ◌++◌, find?,
  if◌then◌else◌, ltb, ◌==◌,
}

-- The system calls on the line, the event descriptor and the sockets.
pub record Line : Type 1 where
  pub World : Type 0
  -- `read` on the line: the number of bytes, and the buffer.
  pub read_tty : World → (ℤ × (ℕ → ℕ)) × World
  -- `write` and `read` of 8 bytes on the event descriptor; the buffer of `read` is indeterminate where it
  -- fails. `-errno` is a result below 0.
  pub write_event : ℕ → World → World
  pub read_event : World → (ℤ × ℕ) × World
  -- `socketpair`: 0 with the two ends.
  pub socketpair : World → (ℤ × ℕ × ℕ) × World
  -- `write` on a socket: the bytes from an index of the buffer on, and how many.
  pub write_sock : ℕ → (ℕ → ℕ) → ℕ → ℕ → World → World

-- `struct pipe_pair`.
pub record PipePair : Type 0 where
  pub sock : ℕ
  pub pipeid : ℕ

-- A byte is an `int` when it is shifted: by 24, its sign bit is extended to the 64 bits of `pipeid`.
abbrev pub sign_extended : ℕ → ℕ
sign_extended v = if ltb v (2 ^ 31) then v else v + (2 ^ 64 - 2 ^ 32)

unfoldable pub pipe_id : (ℕ → ℕ) → ℕ
pipe_id buffer =
    let id = buffer 4 in
    let id = bit_or id (2 ^ 8 * buffer 3) in
    let id = bit_or id (2 ^ 16 * buffer 2) in
    let id = bit_or id (sign_extended (2 ^ 24 * buffer 1)) in bit_or id (2 ^ 32 * buffer 0)

-- `rbytes - 6`, an `int` that becomes a `size_t`.
abbrev pub payload_size : ℕ → ℕ
payload_size rbytes = (rbytes + 2 ^ 64 - 6) % 2 ^ 64

module _ (l : Line) where
  pub record State : Type 0 where
    pub pipes : List PipePair
    pub world : l.World

  -- A known pipe's data goes to its socket; an unknown pipe's address goes to the event descriptor.
  unfoldable pub dispatch : Option PipePair → ℕ → (ℕ → ℕ) → ℕ → State → State
  dispatch none id buffer rbytes s = record s { world = l.write_event id s.world }
  dispatch (some pipe) id buffer rbytes s = record s {
    world = l.write_sock pipe.sock buffer 6 (payload_size rbytes) s.world;
  }

  abbrev pub has_id : ℕ → PipePair → Bool
  has_id id pipe = pipe.pipeid == id

  abbrev pub received : ℤ × (ℕ → ℕ) → State → State
  received (negsuc n, buffer) s = s
  received (pos rbytes, buffer) s =
      dispatch (find? (has_id (pipe_id buffer)) s.pipes) (pipe_id buffer) buffer rbytes s

  -- The watch always stays.
  unfoldable pub tty_data_watch : State → State
  unfolding dispatch pipe_id
  tty_data_watch s = let (got, w) = l.read_tty s.world in received got (record s { world = w })

  abbrev pub paired_with : ℕ → ℤ × ℕ × ℕ → State → ℤ × State
  paired_with id (negsuc n, near, far) s = (negsuc n, s)
  paired_with id (pos n, near, far) s =
      (pos near, record s { pipes = s.pipes ++ record { sock = far; pipeid = id } ∷ [] })

  abbrev pub event_read : ℤ × ℕ → State → ℤ × State
  event_read (negsuc n, id) s = (negsuc n, s)
  event_read (pos n, id) s =
      let (ends, w) = l.socketpair s.world in paired_with id ends (record s { world = w })

  -- The thing's socket, or `-errno`.
  unfoldable pub serial_accept : State → ℤ × State
  serial_accept s = let (got, w) = l.read_event s.world in event_read got (record s { world = w })
