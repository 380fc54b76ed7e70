-- ===== src/Msg/Reported.antt =====
-- src/msg.c: the lists that the cloud keeps for a sensor, rewritten after its data was sent, and the
-- number of digits that the value is sent with.
use native.Mathlib.Nat.{mul_comm}
use native.Mathlib.Numerals.{unary_clauses}
use knot_service_source.Common.{
  ℕ, suc, zero, ◌+◌, ◌*◌, ◌^◌, ◌/◌, ◌<◌, ◌≤◌, ◌≡◌, refl, subst, ℤ, pos, negsuc, true, arith, ltb,
  Bool-cases, inl, inr,
}
use knot_service_source.Msg.Cloud.{printed_length, digits}

digits_bounds : (fuel n : ℕ) → digits fuel n ≤ fuel
unfolding digits
digits_bounds zero n = omega arith
digits_bounds (suc fuel) n = ground (arith, digits_bounds fuel (n / 10))

digits_pos : (fuel n : ℕ) → 0 < digits (suc fuel) n
unfolding digits
digits_pos fuel n = ground arith

-- The loop of the decimal digits ends: with fuel for them it gives the least power of ten above `n`.
digits_enough : (fuel n : ℕ) → n < 10 ^ fuel → 0 < fuel → n < 10 ^ digits fuel n
unfolding digits
digits_enough zero n h k = absurd (omega arith)
digits_enough (suc zero) n h k = ground arith
digits_enough (suc (suc fuel)) n h k = elim (Bool-cases (ltb n 10)) [
  | inl p ↦ rw (p, digits) (omega (arith, ltb→< n p))
  | inr p ↦
      let rest = digits_enough (suc fuel) (n / 10) (ten_below (suc fuel) n h) (omega arith) in
      rw (p, digits) (above_ten n (digits (suc fuel) (n / 10)) rest)
]
  where
    ltb→< : (a : ℕ) → ltb a 10 ≡ true → a < 10
    ltb→< a q = ground arith

    pow_suc : (m : ℕ) → 10 ^ suc m ≡ 10 * 10 ^ m
    pow_suc m = simp unary_clauses (mul_comm (10 ^ m) 10)

    ten_below : (m a : ℕ) → a < 10 ^ suc m → a / 10 < 10 ^ m
    ten_below m a q = omega (arith, pow_suc m)

    above_ten : (a m : ℕ) → a / 10 < 10 ^ m → a < 10 ^ (1 + m)
    above_ten a m q =
        let next : suc m ≡ 1 + m = omega arith in
        subst (λ k. a < 10 ^ k) next (omega (arith, pow_suc m))

-- The absolute value.
abbrev pub magnitude : ℤ → ℕ
magnitude (pos n) = n
magnitude (negsuc n) = n + 1

abbrev pub sign_length : ℤ → ℕ
sign_length (pos n) = 0
sign_length (negsuc n) = 1

-- `printed_length` of an `int` is its sign and as many digits as hold it, and at most eleven, so that
-- the text and its NUL fit `buffer[12]`.
printed_length_bounds :
    (z : ℤ)
    → magnitude z ≤ 2 ^ 31
    → (digits : ℕ) × (printed_length z ≡ sign_length z + digits)
      × (magnitude z < 10 ^ digits)
      × (printed_length z < 12)
unfolding printed_length
printed_length_bounds (pos n) h = (
  digits 10 n,
  omega arith,
  digits_enough 10 n (omega arith) (omega arith),
  omega (arith, digits_bounds 10 n),
)
printed_length_bounds (negsuc n) h = (
  digits 10 (n + 1),
  refl,
  digits_enough 10 (n + 1) (omega arith) (omega arith),
  omega (arith, digits_bounds 10 (n + 1)),
)
