-- ===== src/Base/Bits.antt =====
-- Laws of the bit operations at variables: the digit recursion that the native operations stand
-- for gives one equation for the lowest digit, and the laws go up digit by digit.
use Prim.Native.Nat.{
  ℕ, zero, suc, ◌+◌, ◌-◌, ◌*◌, ◌/◌, ◌%◌, ◌^◌, ◌≤◌, ◌<◌, min, max, bit_and, bit_or, bit_xor, digits,
  bit_and-bitwise, bit_or-bitwise, bit_xor-bitwise, differ,
}
use mathlib.Core.Path.{◌≡◌, refl, ap, ap₂, ◌∙◌}
use native.Mathlib.Nat.{pow-suc, one-le-pow, div-add-mod}
use native.Mathlib.Numerals.{towards_suc}
use native.Mathlib.Omega.{arith}

-- Any fuel that reaches `a` gives the same digits.
digits_enough :
    (z : ℕ → ℕ) (f : ℕ → ℕ → ℕ) (n m a b : ℕ) → a ≤ n → a ≤ m → digits z f n a b ≡ digits z f m a b
digits_enough z f zero zero zero b p q = refl
digits_enough z f zero (suc m) zero b p q = refl
digits_enough z f (suc n) zero zero b p q = refl
digits_enough z f (suc n) (suc m) zero b p q = refl
digits_enough z f zero m (suc a) b p q = absurd (omega arith)
digits_enough z f (suc n) zero (suc a) b p q = absurd (omega arith)
digits_enough z f (suc n) (suc m) (suc a) b p q =
    let below = digits_enough z f n m (suc a / 2) (b / 2) (omega arith) (omega arith) in rw below

-- One digit more than the halves have.
digits_half :
    (z : ℕ → ℕ) (f : ℕ → ℕ → ℕ) (a b : ℕ)
    → digits z f a (suc a / 2) b ≡ digits z f (suc a / 2) (suc a / 2) b
digits_half z f a b = digits_enough z f a (suc a / 2) (suc a / 2) b (omega arith) (omega arith)

pub bit_or_digit : (a b : ℕ) → bit_or a b ≡ 2 * bit_or (a / 2) (b / 2) + max (a % 2) (b % 2)
bit_or_digit zero b = simp bit_or-bitwise (omega arith)
bit_or_digit (suc a) b = simp bit_or-bitwise (omega (arith, digits_half (λ y. y) max a (b / 2)))

pub bit_and_digit : (a b : ℕ) → bit_and a b ≡ 2 * bit_and (a / 2) (b / 2) + min (a % 2) (b % 2)
bit_and_digit zero b = simp bit_and-bitwise (omega arith)
bit_and_digit (suc a) b = simp bit_and-bitwise (omega (arith, digits_half (λ y. 0) min a (b / 2)))

pub bit_xor_digit : (a b : ℕ) → bit_xor a b ≡ 2 * bit_xor (a / 2) (b / 2) + differ (a % 2) (b % 2)
bit_xor_digit zero b = simp bit_xor-bitwise (omega arith)
bit_xor_digit (suc a) b =
    simp bit_xor-bitwise (omega (arith, digits_half (λ y. y) differ a (b / 2)))

-- Doubling and halving a shifted field.
pub two_pow_suc : (k : ℕ) → 2 ^ suc k ≡ 2 * 2 ^ k
two_pow_suc k = omega (arith, pow-suc 2 k)

field_suc : (q k : ℕ) → q * 2 ^ suc k ≡ 2 * (q * 2 ^ k)
field_suc q k = omega (arith, ap (λ (t : ℕ). q * t) (two_pow_suc k))

pub zero-bit_or : (b : ℕ) → bit_or 0 b ≡ b
zero-bit_or b = bit_or-bitwise 0 b

zero-bit_xor : (b : ℕ) → bit_xor 0 b ≡ b
zero-bit_xor b = bit_xor-bitwise 0 b

pub zero-bit_and : (b : ℕ) → bit_and 0 b ≡ 0
zero-bit_and b = bit_and-bitwise 0 b

-- `v |= x << s` adds a field above the `s` bits that are in use.
pub bit_or_field : (s v x : ℕ) → v < 2 ^ s → bit_or v (x * 2 ^ s) ≡ v + x * 2 ^ s
bit_or_field zero zero x h = ground (arith, zero-bit_or (x * 1))
bit_or_field zero (suc v) x h = absurd (omega arith)
bit_or_field (suc s) v x h = omega (
  arith,
  two_pow_suc s,
  field_suc x s,
  bit_or_digit v (x * 2 ^ suc s),
  ap (bit_or (v / 2)) halved,
  bit_or_field s (v / 2) x (omega (arith, two_pow_suc s)),
)
  where
    halved : x * 2 ^ suc s / 2 ≡ x * 2 ^ s
    halved = omega (arith, field_suc x s)

bit_and-zero_below : (n a : ℕ) → a ≤ n → bit_and a 0 ≡ 0
bit_and-zero_below n zero h = refl
bit_and-zero_below zero (suc a) h = absurd (omega arith)
bit_and-zero_below (suc n) (suc a) h =
    omega (arith, bit_and_digit (suc a) 0, bit_and-zero_below n (suc a / 2) (omega arith))

pub bit_and-zero : (a : ℕ) → bit_and a 0 ≡ 0
bit_and-zero a = bit_and-zero_below a a (omega arith)

bit_or-zero_below : (n a : ℕ) → a ≤ n → bit_or a 0 ≡ a
bit_or-zero_below n zero h = refl
bit_or-zero_below zero (suc a) h = absurd (omega arith)
bit_or-zero_below (suc n) (suc a) h =
    omega (arith, bit_or_digit (suc a) 0, bit_or-zero_below n (suc a / 2) (omega arith))

pub bit_or-zero : (a : ℕ) → bit_or a 0 ≡ a
bit_or-zero a = bit_or-zero_below a a (omega arith)

bit_or_even : (a m : ℕ) → bit_or a (2 * m) ≡ 2 * bit_or (a / 2) m + a % 2
bit_or_even a m = omega (arith, bit_or_digit a (2 * m), ap (bit_or (a / 2)) halved)
  where
    halved : 2 * m / 2 ≡ m
    halved = omega arith

-- The low byte of `a | 0x80`.
pub bit_or_top7 : (a : ℕ) → bit_or a 0x80 % 256 ≡ a % 128 + 128
bit_or_top7 a = omega (
  arith,
  bit_or_even a 64,
  bit_or_even (a / 2) 32,
  bit_or_even (a / 2 / 2) 16,
  bit_or_even (a / 2 / 2 / 2) 8,
  bit_or_even (a / 2 / 2 / 2 / 2) 4,
  bit_or_even (a / 2 / 2 / 2 / 2 / 2) 2,
  bit_or_even (a / 2 / 2 / 2 / 2 / 2 / 2) 1,
  bit_or_digit (a / 2 / 2 / 2 / 2 / 2 / 2 / 2) 1,
)

differ_digits : (x y : ℕ) → x < 2 → y < 2 → differ x y ≡ (x + y) % 2
differ_digits zero y hx hy = omega arith
differ_digits (suc zero) zero hx hy = refl
differ_digits (suc zero) (suc zero) hx hy = refl
differ_digits (suc zero) (suc (suc y)) hx hy = absurd (omega arith)
differ_digits (suc (suc x)) y hx hy = absurd (omega arith)

bit_xor_halves : (a b : ℕ) → bit_xor a b ≡ 2 * bit_xor (a / 2) (b / 2) + (a + b) % 2
bit_xor_halves a b =
    omega (arith, bit_xor_digit a b, differ_digits (a % 2) (b % 2) (omega arith) (omega arith))

bit_xor-zero_below : (n a : ℕ) → a ≤ n → bit_xor a 0 ≡ a
bit_xor-zero_below n zero h = refl
bit_xor-zero_below zero (suc a) h = absurd (omega arith)
bit_xor-zero_below (suc n) (suc a) h =
    omega (arith, bit_xor_halves (suc a) 0, bit_xor-zero_below n (suc a / 2) (omega arith))

pub bit_xor-zero : (a : ℕ) → bit_xor a 0 ≡ a
bit_xor-zero a = bit_xor-zero_below a a (omega arith)

-- Exclusive or with `w` ones is the complement in `w` bits.
pub bit_xor-ones : (w a : ℕ) → a < 2 ^ w → bit_xor a (2 ^ w - 1) ≡ 2 ^ w - 1 - a
bit_xor-ones zero a h = omega (arith, bit_xor-zero a)
bit_xor-ones (suc w) a h = omega (
  arith,
  two_pow_suc w,
  bit_xor_halves a (2 ^ suc w - 1),
  ap (bit_xor (a / 2)) halved,
  bit_xor-ones w (a / 2) (omega (arith, two_pow_suc w)),
)
  where
    halved : (2 ^ suc w - 1) / 2 ≡ 2 ^ w - 1
    halved = omega (arith, two_pow_suc w, one-le-pow w 2 (omega arith))

-- Setting bit `k`: it is set after, and no bit that was set is lost.
pub bit_and-bit_or_self : (k a : ℕ) → bit_and (bit_or a (2 ^ k)) (2 ^ k) ≡ 2 ^ k
bit_and-bit_or_self zero a =
    omega (arith, bit_and_digit (bit_or a 1) 1, bit_or_digit a 1, bit_and-zero (bit_or a 1 / 2))
bit_and-bit_or_self (suc k) a = omega (
  arith,
  two_pow_suc k,
  bit_and_digit (bit_or a (2 ^ suc k)) (2 ^ suc k),
  ap (bit_and (bit_or a (2 ^ suc k) / 2)) (two_pow_half k),
  ap (λ (t : ℕ). bit_and t (2 ^ k)) halved,
  bit_and-bit_or_self k (a / 2),
)
  where
    two_pow_half : (k : ℕ) → 2 ^ suc k / 2 ≡ 2 ^ k
    two_pow_half k = omega (arith, two_pow_suc k)

    halved : bit_or a (2 ^ suc k) / 2 ≡ bit_or (a / 2) (2 ^ k)
    halved =
        omega
          (arith, two_pow_suc k, bit_or_digit a (2 ^ suc k), ap (bit_or (a / 2)) (two_pow_half k))

half-bit_or : (a m : ℕ) → bit_or a m / 2 ≡ bit_or (a / 2) (m / 2)
half-bit_or a m = omega (arith, bit_or_digit a m)

pub bit_and-le-bit_or : (k a m : ℕ) → bit_and a (2 ^ k) ≤ bit_and (bit_or a m) (2 ^ k)
bit_and-le-bit_or zero a m = omega (
  arith,
  bit_and_digit a 1,
  bit_and_digit (bit_or a m) 1,
  bit_or_digit a m,
  bit_and-zero (bit_or a m / 2),
  bit_and-zero (a / 2),
)
bit_and-le-bit_or (suc k) a m = omega (
  arith,
  two_pow_suc k,
  bit_and_digit a (2 ^ suc k),
  bit_and_digit (bit_or a m) (2 ^ suc k),
  ap (bit_and (a / 2)) halved,
  ap (bit_and (bit_or a m / 2)) halved,
  ap (λ (t : ℕ). bit_and t (2 ^ k)) (half-bit_or a m),
  bit_and-le-bit_or k (a / 2) (m / 2),
)
  where
    halved : 2 ^ suc k / 2 ≡ 2 ^ k
    halved = omega (arith, two_pow_suc k)

-- `|` stays within `w` bits.
pub bit_or-lt : (w a b : ℕ) → a < 2 ^ w → b < 2 ^ w → bit_or a b < 2 ^ w
bit_or-lt zero zero b ha hb = omega (arith, zero-bit_or b)
bit_or-lt zero (suc a) b ha hb = absurd (omega arith)
bit_or-lt (suc w) a b ha hb = omega (
  arith,
  two_pow_suc w,
  bit_or_digit a b,
  bit_or-lt w (a / 2) (b / 2) (omega (arith, two_pow_suc w)) (omega (arith, two_pow_suc w)),
)

-- Seven bits further up.
pub two_pow_add7 : (s : ℕ) → 2 ^ (s + 7) ≡ 128 * 2 ^ s
two_pow_add7 s = simp towards_suc (
    omega (
      arith,
      two_pow_suc s,
      two_pow_suc (suc s),
      two_pow_suc (suc (suc s)),
      two_pow_suc (suc (suc (suc s))),
      two_pow_suc (suc (suc (suc (suc s)))),
      two_pow_suc (suc (suc (suc (suc (suc s))))),
      two_pow_suc (suc (suc (suc (suc (suc (suc s)))))),
    ))

-- A number shifted by `s` bits, as its lowest seven bits and the rest seven bits further up.
pub split_low7 : (w s : ℕ) → w * 2 ^ s ≡ w % 128 * 2 ^ s + w / 128 * 2 ^ (s + 7)
split_low7 w s = omega (
  arith,
  ap (λ (t : ℕ). t * 2 ^ s) (div-add-mod w 128),
  ap (λ (t : ℕ). w / 128 * t) (two_pow_add7 s),
)

half-low_ones : (k : ℕ) → (2 ^ suc k - 1) / 2 ≡ 2 ^ k - 1
half-low_ones k = omega (arith, two_pow_suc k, one-le-pow k 2 (omega arith))

bit_and-low_field : (k q r : ℕ) → r < 2 ^ k → bit_and (q * 2 ^ k + r) (2 ^ k - 1) ≡ r
bit_and-low_field zero q r h = omega (arith, bit_and-zero (q * 2 ^ 0 + r))
bit_and-low_field (suc k) q r h = omega (
  arith,
  two_pow_suc k,
  field_suc q k,
  one-le-pow k 2 (omega arith),
  bit_and_digit (q * 2 ^ suc k + r) (2 ^ suc k - 1),
  ap₂ bit_and halved (half-low_ones k),
  bit_and-low_field k q (r / 2) (omega (arith, two_pow_suc k)),
)
  where
    halved : (q * 2 ^ suc k + r) / 2 ≡ q * 2 ^ k + r / 2
    halved = omega (arith, field_suc q k)

-- `a & 0x7f` keeps seven bits.
pub bit_and_low7 : (a : ℕ) → bit_and a 0x7f ≡ a % 128
bit_and_low7 a =
    ap (λ (t : ℕ). bit_and t 0x7f) (omega arith)
    ∙ bit_and-low_field 7 (a / 2 ^ 7) (a % 2 ^ 7) (omega arith)

-- `a & 31` and `a & 63` keep five and six bits, and `a & 16` the bit above four.
pub bit_and_low5 : (a : ℕ) → bit_and a 31 ≡ a % 32
bit_and_low5 a =
    ap (λ (t : ℕ). bit_and t 31) (omega arith)
    ∙ bit_and-low_field 5 (a / 2 ^ 5) (a % 2 ^ 5) (omega arith)

pub bit_and_low6 : (a : ℕ) → bit_and a 63 ≡ a % 64
bit_and_low6 a =
    ap (λ (t : ℕ). bit_and t 63) (omega arith)
    ∙ bit_and-low_field 6 (a / 2 ^ 6) (a % 2 ^ 6) (omega arith)

bit_and_even : (a m : ℕ) → bit_and a (2 * m) ≡ 2 * bit_and (a / 2) m
bit_and_even a m = omega (arith, bit_and_digit a (2 * m), ap (bit_and (a / 2)) halved)
  where
    halved : 2 * m / 2 ≡ m
    halved = omega arith

pub bit_and_16 : (a : ℕ) → bit_and a 16 ≡ 16 * (a / 16 % 2)
bit_and_16 a = omega (
  arith,
  bit_and_even a 8,
  bit_and_even (a / 2) 4,
  bit_and_even (a / 2 / 2) 2,
  bit_and_even (a / 2 / 2 / 2) 1,
  bit_and_digit (a / 2 / 2 / 2 / 2) 1,
  bit_and-zero (a / 2 / 2 / 2 / 2 / 2),
)

-- `a & 0xffffffff` is the low word.
pub bit_and_low32 : (a : ℕ) → bit_and a 0xffffffff ≡ a % 2 ^ 32
bit_and_low32 a =
    ap (λ (t : ℕ). bit_and t 0xffffffff) (omega arith)
    ∙ bit_and-low_field 32 (a / 2 ^ 32) (a % 2 ^ 32) (omega arith)

bit_or_comm_below : (n a b : ℕ) → a ≤ n → b ≤ n → bit_or a b ≡ bit_or b a
bit_or_comm_below zero zero zero ha hb = refl
bit_or_comm_below zero zero (suc b) ha hb = absurd (omega arith)
bit_or_comm_below zero (suc a) b ha hb = absurd (omega arith)
bit_or_comm_below (suc n) a b ha hb = omega (
  arith,
  bit_or_digit a b,
  bit_or_digit b a,
  bit_or_comm_below n (a / 2) (b / 2) (omega arith) (omega arith),
)

pub bit_or_comm : (a b : ℕ) → bit_or a b ≡ bit_or b a
bit_or_comm a b = bit_or_comm_below (a + b) a b (omega arith) (omega arith)
