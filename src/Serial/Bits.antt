-- ===== src/Serial/Bits.antt =====
-- C's `|` on unsigned integers.
use Prim.Native.Nat.{bit_or, digits, max, bit_or-bitwise}
use knot_service_source.Common.{
  ℕ, zero, suc, ◌+◌, ◌-◌, ◌*◌, ◌/◌, ◌%◌, ◌^◌, ◌<◌, ◌≤◌, ◌≡◌, refl, ap, arith,
}

-- The native operation, on enough digits.
abbrev or_digits : ℕ → ℕ → ℕ → ℕ
or_digits n a b = digits (λ b. b) max n a b

or_digits-enough : (n m a b : ℕ) → a ≤ n → a ≤ m → or_digits n a b ≡ or_digits m a b
or_digits-enough zero zero a b p q = refl
or_digits-enough zero (suc m) zero b p q = refl
or_digits-enough (suc n) zero zero b p q = refl
or_digits-enough (suc n) (suc m) zero b p q = refl
or_digits-enough zero (suc m) (suc a) b p q = absurd (omega arith)
or_digits-enough (suc n) zero (suc a) b p q = absurd (omega arith)
or_digits-enough (suc n) (suc m) (suc a) b p q =
    omega (arith, or_digits-enough n m (suc a / 2) (b / 2) (omega arith) (omega arith))

pub zero-bit_or : (b : ℕ) → bit_or 0 b ≡ b
zero-bit_or b = bit_or-bitwise 0 b

-- The lowest digit.
bit_or_digit : (a b : ℕ) → bit_or a b ≡ 2 * bit_or (a / 2) (b / 2) + max (a % 2) (b % 2)
bit_or_digit zero b = omega (arith, zero-bit_or b, zero-bit_or (b / 2))
bit_or_digit (suc a) b = omega (
  arith,
  bit_or-bitwise (suc a) b,
  bit_or-bitwise (suc a / 2) (b / 2),
  or_digits-enough a (suc a / 2) (suc a / 2) (b / 2) (omega arith) (omega arith),
)

pub or_cong : (a a' b b' : ℕ) → a ≡ a' → b ≡ b' → bit_or a b ≡ bit_or a' b'
or_cong a a' b b' p q = cc

double_pow : (k h : ℕ) → 2 ^ suc k * h ≡ 2 * (2 ^ k * h)
double_pow k h = grind arith

pow_pos : (k : ℕ) → 0 < 2 ^ k
pow_pos zero = omega arith
pow_pos (suc k) = omega (arith, double_pow k 1, pow_pos k)

-- The low `k` digits and the others are independent.
pub bit_or-split :
    (k x y h g : ℕ)
    → x < 2 ^ k
    → y < 2 ^ k
    → bit_or (x + 2 ^ k * h) (y + 2 ^ k * g) ≡ bit_or x y + 2 ^ k * bit_or h g
bit_or-split zero x y h g p q = omega (
  arith,
  or_cong (x + 2 ^ 0 * h) h (y + 2 ^ 0 * g) g (omega arith) (omega arith),
  or_cong x 0 y 0 (omega arith) (omega arith),
  zero-bit_or 0,
)
bit_or-split (suc k) x y h g p q = omega (
  arith,
  bit_or_digit (x + 2 ^ suc k * h) (y + 2 ^ suc k * g),
  bit_or_digit x y,
  or_cong ((x + 2 ^ suc k * h) / 2) (x / 2 + 2 ^ k * h) ((y + 2 ^ suc k * g) / 2)
      (y / 2 + 2 ^ k * g) (omega (arith, double_pow k h)) (omega (arith, double_pow k g)),
  bit_or-split k (x / 2) (y / 2) h g (omega (arith, double_pow k 1))
      (omega (arith, double_pow k 1)),
  double_pow k h,
  double_pow k g,
  double_pow k (bit_or h g),
)

pub bit_or-zero : (n a : ℕ) → a ≤ n → bit_or a 0 ≡ a
bit_or-zero n zero p = refl
bit_or-zero zero (suc a) p = absurd (omega arith)
bit_or-zero (suc n) (suc a) p =
    omega (arith, bit_or_digit (suc a) 0, bit_or-zero n (suc a / 2) (omega arith))

-- Digits that do not overlap are added.
pub bit_or-add : (k x g : ℕ) → x < 2 ^ k → bit_or x (2 ^ k * g) ≡ x + 2 ^ k * g
bit_or-add k x g p = omega (
  arith,
  bit_or-split k x 0 0 g p (omega (arith, pow_pos k)),
  or_cong (x + 2 ^ k * 0) x (0 + 2 ^ k * g) (2 ^ k * g) (grind arith) (omega arith),
  bit_or-zero x x (omega arith),
  zero-bit_or g,
  ap (λ z. 2 ^ k * z) (zero-bit_or g),
)

-- Ones stay.
pub ones-bit_or : (k g : ℕ) → g < 2 ^ k → bit_or (2 ^ k - 1) g ≡ 2 ^ k - 1
ones-bit_or zero g p = omega (arith, zero-bit_or g)
ones-bit_or (suc k) g p = omega (
  arith,
  bit_or_digit (2 ^ suc k - 1) g,
  or_cong ((2 ^ suc k - 1) / 2) (2 ^ k - 1) (g / 2) (g / 2)
      (omega (arith, double_pow k 1, pow_pos k)) refl,
  ones-bit_or k (g / 2) (omega (arith, double_pow k 1)),
  double_pow k 1,
  pow_pos k,
)
