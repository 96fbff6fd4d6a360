-- ===== src/Bloom/Bits.antt =====
-- src/bloom_filter.cpp: single bits of the filter's data.
use xfutil.Base.{
  ℕ, zero, suc, ◌/◌, ◌%◌, ◌^◌, ◌≤◌, ◌<◌, ◌≡◌, refl, arith, false, ==_ne, bit_and, bit_or, List, [],
  ◌∷◌, length, get_or, set, length-set,
}
use xfutil.Base.Bits.{bit_and-bit_or_self, bit_and-le-bit_or}
use xfutil.Bloom.{set_bit, bit_is_clear}
use native.Mathlib.Nat.{one-le-pow}

get_or-set_self : (xs : List ℕ) (i v : ℕ) → i < length xs → get_or (set xs i v) i 0 ≡ v
get_or-set_self [] i v h = elim h [ ]
get_or-set_self (x ∷ xs) zero v h = refl
get_or-set_self (x ∷ xs) (suc i) v h = get_or-set_self xs i v (omega arith)

-- A write at `i` of a value no bit lower leaves the bit `k` of every cell.
get_or-set_bit :
    (xs : List ℕ) (i j k m : ℕ)
    → bit_and (get_or xs j 0) (2 ^ k)
      ≤ bit_and (get_or (set xs i (bit_or (get_or xs i 0) m)) j 0) (2 ^ k)
get_or-set_bit [] i j k m = omega arith
get_or-set_bit (x ∷ xs) zero zero k m = bit_and-le-bit_or k x m
get_or-set_bit (x ∷ xs) zero (suc j) k m = omega arith
get_or-set_bit (x ∷ xs) (suc i) zero k m = omega arith
get_or-set_bit (x ∷ xs) (suc i) (suc j) k m = get_or-set_bit xs i j k m

pub length-set_bit : (xs : List ℕ) (pos : ℕ) → length (set_bit xs pos) ≡ length xs
unfolding set_bit
length-set_bit xs pos = length-set xs _ _

pub bit_is_clear-set_bit_self :
    (xs : List ℕ) (pos : ℕ) → pos / 8 < length xs → bit_is_clear (set_bit xs pos) pos ≡ false
unfolding bit_is_clear set_bit
bit_is_clear-set_bit_self xs pos h = rw (get_or-set_self xs (pos / 8) _ h) (
    rw (bit_and-bit_or_self (pos % 8) _)
      (==_ne _ 0 (omega (arith, one-le-pow (pos % 8) 2 (omega arith)))))

pub bit_is_clear-set_bit :
    (xs : List ℕ) (p q : ℕ) → bit_is_clear xs q ≡ false → bit_is_clear (set_bit xs p) q ≡ false
unfolding bit_is_clear set_bit
bit_is_clear-set_bit xs p q h =
    ground (arith, get_or-set_bit xs (p / 8) (q / 8) (q % 8) (2 ^ (p % 8)))
