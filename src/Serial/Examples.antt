-- ===== src/Serial/Examples.antt =====
-- The theorems on src/node-serial.c at concrete inputs: a line on which the pipe 0x0000000105 speaks.
use knot_service_source.Common.{
  ℕ, zero, suc, ◌+◌, ◌<◌, ◌≤◌, ◌≡◌, ◌↔◌, refl, pos, List, [], ◌∷◌, arith, find?, some,
}
use knot_service_source.Serial.Pipes.{Line, State, pipe_id, has_id, tty_data_watch, serial_accept}
use knot_service_source.Serial.Ids.{address_byte, pipe_id-address_byte, high_pipes_clash}
use knot_service_source.Serial.Forward.{forwarded_size, accepted_pipe}

-- 00 00 00 01 05, the length 2 and the payload.
abbrev nth : List ℕ → ℕ → ℕ
nth [] i = 0
nth (x ∷ xs) zero = x
nth (x ∷ xs) (suc i) = nth xs i

abbrev datagram : ℕ → ℕ
datagram = nth (0 ∷ 0 ∷ 0 ∷ 1 ∷ 5 ∷ 2 ∷ 10 ∷ 11 ∷ [])

abbrev wire : Line
wire = record {
  World = List ℕ;
  read_tty = λ w. ((pos 8, datagram), w);
  write_event = λ id w. id ∷ w;
  read_event = λ w. ((pos 8, 261), w);
  socketpair = λ w. ((pos 0, 4, 5), w);
  write_sock = λ sock buffer first n w. sock ∷ first ∷ n ∷ w;
}

abbrev quiet : State wire
quiet = record { pipes = []; world = [] }

datagram_lem : pipe_id datagram ≡ 261
unfolding pipe_id
datagram_lem = refl

-- What the bytes are, one by one.
line_lem : (i : ℕ) → i < 5 → datagram i ≡ address_byte 261 i
line_lem zero p = refl
line_lem (suc zero) p = refl
line_lem (suc (suc zero)) p = refl
line_lem (suc (suc (suc zero))) p = refl
line_lem (suc (suc (suc (suc zero)))) p = refl
line_lem (suc (suc (suc (suc (suc i))))) p = absurd (omega arith)

pipe_id-address_byte_example : pipe_id datagram ≡ 261
pipe_id-address_byte_example =
    pipe_id-address_byte datagram 261 (omega arith) (omega arith) line_lem

abbrev far_away : ℕ → ℕ → ℕ
far_away b0 zero = b0
far_away b0 (suc i) = nth (200 ∷ 0 ∷ 1 ∷ 5 ∷ []) i

far_away_lem : (i : ℕ) → 0 < i → far_away 9 i ≡ far_away 7 i
far_away_lem zero p = absurd (omega arith)
far_away_lem (suc i) p = refl

high_pipes_clash_example : pipe_id (far_away 9) ≡ pipe_id (far_away 7)
high_pipes_clash_example =
    high_pipes_clash (far_away 7) (far_away 9)
      (omega arith, omega arith, omega arith, omega arith, omega arith) (omega arith) (omega arith)
      far_away_lem

abbrev served : State wire
served = record { pipes = record { sock = 5; pipeid = 261 } ∷ []; world = [] }

served_lem :
    find? (has_id wire (pipe_id datagram)) served.pipes ≡ some (record { sock = 5; pipeid = 261 })
unfolding pipe_id
served_lem = refl

forwarded_size_example :
    (size : ℕ) × (tty_data_watch wire served ≡ record served { world = 5 ∷ 6 ∷ size ∷ [] })
    × ((6 + size ≤ 256) ↔ (6 ≤ 8))
forwarded_size_example =
    forwarded_size wire served (record { sock = 5; pipeid = 261 }) 8 datagram [] refl served_lem
      (omega arith)

accepted_pipe_example :
    (s' : State wire) × (serial_accept wire quiet ≡ (pos 4, s'))
    × (tty_data_watch wire s' ≡ record s' { world = 5 ∷ 6 ∷ 2 ∷ [] })
accepted_pipe_example =
    accepted_pipe wire quiet 261 4 5 0 8 8 datagram [] [] [] refl refl refl refl datagram_lem
      (omega arith) (omega arith)
