-- ===== src/Serial/Ids.antt =====
-- src/node-serial.c: the pipe identification in the first five bytes, big endian.
use Prim.Native.Nat.{bit_or}
use knot_service_source.Common.{
  ℕ, ◌+◌, ◌-◌, ◌*◌, ◌/◌, ◌%◌, ◌^◌, ◌<◌, ◌≤◌, ◌≡◌, refl, sym, ◌∙◌, arith,
}
use knot_service_source.Serial.Bits.{bit_or-add, bit_or-split, bit_or-zero, ones-bit_or, or_cong}
use knot_service_source.Serial.Pipes.{pipe_id, sign_extended}

-- The byte `i` of the address on the line, most significant first.
abbrev pub address_byte : ℕ → ℕ → ℕ
address_byte id i = (id / 2 ^ (8 * (4 - i))) % 2 ^ 8

-- The first four bytes, without the sign.
low_sum :
    (b2 b3 b4 : ℕ)
    → b2 < 2 ^ 8
    → b3 < 2 ^ 8
    → b4 < 2 ^ 8
    → bit_or (bit_or b4 (2 ^ 8 * b3)) (2 ^ 16 * b2) ≡ b4 + 2 ^ 8 * b3 + 2 ^ 16 * b2
low_sum b2 b3 b4 p q r =
    or_cong (bit_or b4 (2 ^ 8 * b3)) (b4 + 2 ^ 8 * b3) (2 ^ 16 * b2) (2 ^ 16 * b2)
      (bit_or-add 8 b4 b3 r) refl
    ∙ bit_or-add 16 (b4 + 2 ^ 8 * b3) b2 (omega arith)

-- The fourth byte as well, whichever way it is extended.
mid_sum :
    (b1 b2 b3 b4 m : ℕ)
    → b2 < 2 ^ 8
    → b3 < 2 ^ 8
    → b4 < 2 ^ 8
    → sign_extended (2 ^ 24 * b1) ≡ 2 ^ 24 * m
    → bit_or (bit_or (bit_or b4 (2 ^ 8 * b3)) (2 ^ 16 * b2)) (sign_extended (2 ^ 24 * b1))
      ≡ b4 + 2 ^ 8 * b3 + 2 ^ 16 * b2 + 2 ^ 24 * m
mid_sum b1 b2 b3 b4 m p q r e =
    or_cong (bit_or (bit_or b4 (2 ^ 8 * b3)) (2 ^ 16 * b2)) (b4 + 2 ^ 8 * b3 + 2 ^ 16 * b2)
      (sign_extended (2 ^ 24 * b1)) (2 ^ 24 * m) (low_sum b2 b3 b4 p q r) e
    ∙ bit_or-add 24 (b4 + 2 ^ 8 * b3 + 2 ^ 16 * b2) m (omega arith)

-- The five bytes of a pipe address.
abbrev pub AreBytes : (ℕ → ℕ) → Type 0
AreBytes buffer =
    (buffer 0 < 2 ^ 8)
    × (buffer 1 < 2 ^ 8)
    × (buffer 2 < 2 ^ 8)
    × (buffer 3 < 2 ^ 8)
    × (buffer 4 < 2 ^ 8)

pipe_id_sum :
    (buffer : ℕ → ℕ)
    → AreBytes buffer
    → buffer 1 < 2 ^ 7
    → pipe_id buffer
      ≡ buffer 4 + 2 ^ 8 * buffer 3 + 2 ^ 16 * buffer 2 + 2 ^ 24 * buffer 1 + 2 ^ 32 * buffer 0
unfolding pipe_id
pipe_id_sum buffer (b0, b1, b2, b3, b4) small =
    let low = buffer 4 + 2 ^ 8 * buffer 3 + 2 ^ 16 * buffer 2 + 2 ^ 24 * buffer 1 in
    or_cong _ low (2 ^ 32 * buffer 0) (2 ^ 32 * buffer 0)
      (mid_sum (buffer 1) (buffer 2) (buffer 3) (buffer 4) (buffer 1) b2 b3 b4 (ground arith)) refl
    ∙ bit_or-add 32 low (buffer 0) (omega arith)

-- An address below 2^40 whose second byte is below 128 is read back from its five bytes.
pub pipe_id-address_byte :
    (buffer : ℕ → ℕ) (id : ℕ)
    → id < 2 ^ 40
    → address_byte id 1 < 2 ^ 7
    → ((i : ℕ) → i < 5 → buffer i ≡ address_byte id i)
    → pipe_id buffer ≡ id
pipe_id-address_byte buffer id p q line =
    let b0 = line 0 (omega arith) in
    let b1 = line 1 (omega arith) in
    let b2 = line 2 (omega arith) in
    let b3 = line 3 (omega arith) in
    let b4 = line 4 (omega arith) in
    pipe_id_sum buffer (omega arith, omega arith, omega arith, omega arith, omega arith)
      (omega arith)
    ∙ omega arith

-- The sign of the second byte fills the upper half, whatever the first byte is.
pipe_id_high :
    (buffer : ℕ → ℕ)
    → AreBytes buffer
    → 2 ^ 7 ≤ buffer 1
    → pipe_id buffer
      ≡ buffer 4 + 2 ^ 8 * buffer 3 + 2 ^ 16 * buffer 2 + 2 ^ 24 * buffer 1 + 2 ^ 32 * (2 ^ 32 - 1)
unfolding pipe_id
pipe_id_high buffer (b0, b1, b2, b3, b4) high =
    let low = buffer 4 + 2 ^ 8 * buffer 3 + 2 ^ 16 * buffer 2 + 2 ^ 24 * buffer 1 in
    let m = buffer 1 + 2 ^ 40 - 2 ^ 8 in
    or_cong _ (low + 2 ^ 32 * (2 ^ 32 - 1)) (2 ^ 32 * buffer 0) (0 + 2 ^ 32 * buffer 0)
      (mid_sum (buffer 1) (buffer 2) (buffer 3) (buffer 4) m b2 b3 b4 (ground arith) ∙ omega arith)
      (omega arith)
    ∙ bit_or-split 32 low 0 (2 ^ 32 - 1) (buffer 0) (omega arith) (omega arith)
    ∙ omega (arith, bit_or-zero low low (omega arith), ones-bit_or 32 (buffer 0) (omega arith))

-- Where the second byte is 128 or more, the first byte of the address is lost: pipes that differ only in
-- it have one identification.
pub high_pipes_clash :
    (buffer other : ℕ → ℕ)
    → AreBytes buffer
    → 2 ^ 7 ≤ buffer 1
    → other 0 < 2 ^ 8
    → ((i : ℕ) → 0 < i → other i ≡ buffer i)
    → pipe_id other ≡ pipe_id buffer
high_pipes_clash buffer other (b0, b1, b2, b3, b4) high byte same =
    let s1 = same 1 (omega arith) in
    let s2 = same 2 (omega arith) in
    let s3 = same 3 (omega arith) in
    let s4 = same 4 (omega arith) in
    pipe_id_high other (byte, omega arith, omega arith, omega arith, omega arith) (omega arith)
    ∙ omega arith
    ∙ sym (pipe_id_high buffer (b0, b1, b2, b3, b4) high)
