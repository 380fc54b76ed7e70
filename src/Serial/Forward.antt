-- ===== src/Serial/Forward.antt =====
-- src/node-serial.c: from a pipe's first data to its socket.
use knot_service_source.Common.{
  ℕ, ◌+◌, ◌-◌, ◌≤◌, ◌≡◌, ◌↔◌, refl, subst, sym, ap, pos, Bool, true, none, some, List, [], ◌∷◌,
  ◌++◌, find?, arith,
}
use knot_service_source.Serial.Pipes.{
  Line, PipePair, State, pipe_id, payload_size, has_id, dispatch, tty_data_watch, serial_accept,
}

find?-snoc :
    {A : Type 0} (test : A → Bool) (xs : List A) (x : A)
    → find? test xs ≡ none
    → test x ≡ true
    → find? test (xs ++ x ∷ []) ≡ some x
find?-snoc test [] x h p = ground arith
find?-snoc test (y ∷ ys) x h p = ground (arith, find?-snoc test ys x)

-- On data of a known pipe, one write to its socket is made, from the payload on; what it is told to send
-- lies in the buffer of 256 bytes exactly where at least the six bytes before the payload were read.
pub forwarded_size :
    (l : Line) (s : State l) (pipe : PipePair) (rbytes : ℕ) (buffer : ℕ → ℕ) (w : l.World)
    → l.read_tty s.world ≡ ((pos rbytes, buffer), w)
    → find? (has_id l (pipe_id buffer)) s.pipes ≡ some pipe
    → rbytes ≤ 256
    → (size : ℕ) × (tty_data_watch l s
        ≡ record s { world = l.write_sock pipe.sock buffer 6 size w })
      × ((6 + size ≤ 256) ↔ (6 ≤ rbytes))
unfolding tty_data_watch dispatch
forwarded_size l s pipe rbytes buffer w line known fits = (
  payload_size rbytes,
  rw (line, known, tty_data_watch, dispatch) refl,
  (λ h. omega arith, λ h. omega arith),
)

-- When the event descriptor gives the address of a pipe that is not known and the sockets can be made,
-- the thing is accepted, and the next data that bears the address goes to the other end of the sockets,
-- from the payload's first byte to its last.
pub accepted_pipe :
    (l : Line) (s : State l) (id near far j k n : ℕ) (buffer : ℕ → ℕ) (w1 w2 w3 : l.World)
    → l.read_event s.world ≡ ((pos k, id), w1)
    → l.socketpair w1 ≡ ((pos j, near, far), w2)
    → find? (has_id l id) s.pipes ≡ none
    → l.read_tty w2 ≡ ((pos n, buffer), w3)
    → pipe_id buffer ≡ id
    → 6 ≤ n
    → n ≤ 256
    → (s' : State l) × (serial_accept l s ≡ (pos near, s'))
      × (tty_data_watch l s' ≡ record s' { world = l.write_sock far buffer 6 (n - 6) w3 })
unfolding serial_accept tty_data_watch dispatch
accepted_pipe l s id near far j k n buffer w1 w2 w3 event ends new line same enough fits =
    let pipe : PipePair = record { sock = far; pipeid = id } in
    let s' : State l = record { pipes = s.pipes ++ pipe ∷ []; world = w2 } in
    let known : find? (has_id l (pipe_id buffer)) (s.pipes ++ pipe ∷ []) ≡ some pipe =
      find?-snoc (has_id l (pipe_id buffer)) s.pipes pipe
        (subst (λ i. find? (has_id l i) s.pipes ≡ none) (sym same) new) (ground (arith, same)) in
    let size : payload_size n ≡ n - 6 = omega arith in
    (
      s',
      rw (event, ends, serial_accept) refl,
      rw (line, known, tty_data_watch, dispatch)
          (ap (λ z. record s' { world = l.write_sock far buffer 6 z w3 }) size),
    )
