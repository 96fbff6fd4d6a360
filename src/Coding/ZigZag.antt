-- ===== src/Coding/ZigZag.antt =====
-- include/xfutil/coding.h: `EncodeZigZag` and `DecodeZigZag` at 16, 32 and 64 bits.
-- A signed value of `w` bits is its two's-complement pattern, below 2 ^ w. At 16 bits C++ computes in
-- `int` and keeps the 16 low bits, which are those below.
use xfutil.Base.{
  ℕ, suc, ◌-◌, ◌*◌, ◌/◌, ◌%◌, ◌^◌, ◌≤◌, ◌<◌, ◌≡◌, ap, ◌∙◌, arith, ltb, lt→ltb, le→ltb_false,
  bit_and, bit_xor, ◌==◌, if◌then◌else◌, Bool-cases, inl, inr, ltb→lt, ltb_false→le,
}
use xfutil.Base.Bits.{bit_xor-zero, bit_xor-ones, two_pow_suc, bit_and_digit, bit_and-zero}
use native.Mathlib.Nat.{one-le-pow, mod-eq_of_lt, mod-eq-sub-mod, mod_self}
use xfutil.Base.Int.{ℤ, pos, negsuc, signed}

-- `value >> (w - 1)` of a signed value: all ones if it is negative, else 0.
unfoldable pub sign_fill : ℕ → ℕ → ℕ
sign_fill w value = if ltb value (2 ^ (w - 1)) then 0 else 2 ^ w - 1

unfoldable pub encode_zig_zag : ℕ → ℕ → ℕ
encode_zig_zag w value = bit_xor (value * 2 % 2 ^ w) (sign_fill w value)

-- `-static_cast<intN_t>(value & 1)` is 0 or all ones.
unfoldable pub decode_zig_zag : ℕ → ℕ → ℕ
decode_zig_zag w value = bit_xor (value / 2) ((2 ^ w - bit_and value 1) % 2 ^ w)

bit_and-one : (a : ℕ) → bit_and a 1 ≡ a % 2
bit_and-one a = omega (arith, bit_and_digit a 1, bit_and-zero (a / 2))

suc-sub-one : (k : ℕ) → suc k - 1 ≡ k
suc-sub-one k = omega arith

pub encode_zig_zag_pos : (k v : ℕ) → v < 2 ^ k → encode_zig_zag (suc k) v ≡ 2 * v
unfolding encode_zig_zag sign_fill
encode_zig_zag_pos k v h =
    rw (suc-sub-one k) (rw (lt→ltb v (2 ^ k) h) (bit_xor-zero _ ∙ mod-eq_of_lt small ∙ omega arith))
  where
    small : v * 2 < 2 ^ suc k
    small = omega (arith, two_pow_suc k)

pub encode_zig_zag_neg :
    (k v : ℕ) → 2 ^ k ≤ v → v < 2 ^ suc k → encode_zig_zag (suc k) v ≡ 2 * (2 ^ suc k - v) - 1
unfolding encode_zig_zag sign_fill
encode_zig_zag_neg k v h hv = rw (suc-sub-one k) (
    rw (le→ltb_false v (2 ^ k) h)
      (rw wrapped (bit_xor-ones (suc k) _ (omega arith) ∙ omega (arith, two_pow_suc k))))
  where
    wrapped : v * 2 % 2 ^ suc k ≡ v * 2 - 2 ^ suc k
    wrapped =
        mod-eq-sub-mod (omega (arith, two_pow_suc k)) ∙ mod-eq_of_lt (omega (arith, two_pow_suc k))

pub decode_zig_zag_even : (w u : ℕ) → u % 2 ≡ 0 → decode_zig_zag w u ≡ u / 2
unfolding decode_zig_zag
decode_zig_zag_even w u h = rw bit_and-one (rw h (ap (bit_xor (u / 2)) wrapped ∙ bit_xor-zero _))
  where
    wrapped : (2 ^ w - 0) % 2 ^ w ≡ 0
    wrapped = ap (λ (t : ℕ). t % 2 ^ w) (omega arith) ∙ mod_self (2 ^ w)

pub decode_zig_zag_odd : (w u : ℕ) → u < 2 ^ w → u % 2 ≡ 1 → decode_zig_zag w u ≡ 2 ^ w - 1 - u / 2
unfolding decode_zig_zag
decode_zig_zag_odd w u hu h =
    rw bit_and-one (rw h (rw wrapped (bit_xor-ones w (u / 2) (omega arith))))
  where
    wrapped : (2 ^ w - 1) % 2 ^ w ≡ 2 ^ w - 1
    wrapped = mod-eq_of_lt (omega (arith, one-le-pow w 2 (omega arith)))

-- The integer that a zigzag code stands for: 0, -1, 1, -2, 2, ... in order of the codes.
abbrev pub zig_zag_value : ℕ → ℤ
zig_zag_value u = if u % 2 == 0 then pos (u / 2) else negsuc (u / 2)

-- A nonnegative value n is coded by 2 n and a negative one by -2 n - 1, so the code stands for the
-- integer that the pattern stands for. Codes stay below 2 ^ (k + 1).
pub encode_zig_zag-signed :
    (k v : ℕ)
    → v < 2 ^ suc k
    → (zig_zag_value (encode_zig_zag (suc k) v) ≡ signed (suc k) v)
      × (encode_zig_zag (suc k) v < 2 ^ suc k)
encode_zig_zag-signed k v h = elim (Bool-cases (ltb v (2 ^ k))) [
  | inl small ↦
      let e = encode_zig_zag_pos k v (ltb→lt _ _ small) in
      ground (arith, e, suc-sub-one k, two_pow_suc k)
  | inr large ↦
      let e = encode_zig_zag_neg k v (ltb_false→le v (2 ^ k) large) h in
      ground (arith, e, suc-sub-one k, two_pow_suc k)
]

-- `DecodeZigZag` undoes `EncodeZigZag` on every signed value.
pub decode-encode_zig_zag :
    (k v : ℕ) → v < 2 ^ suc k → decode_zig_zag (suc k) (encode_zig_zag (suc k) v) ≡ v
decode-encode_zig_zag k v h = elim (Bool-cases (ltb v (2 ^ k))) [
  | inl small ↦
      rw (encode_zig_zag_pos k v (ltb→lt _ _ small))
        (decode_zig_zag_even (suc k) (2 * v) (omega arith) ∙ omega arith)
  | inr large ↦
      let below = ltb_false→le v (2 ^ k) large in
      rw (encode_zig_zag_neg k v below h) (
        decode_zig_zag_odd (suc k) _ (omega (arith, two_pow_suc k)) (omega arith)
        ∙ omega (arith, two_pow_suc k))
]

-- Every code is the code of the value that it decodes to: the coding is onto.
pub encode-decode_zig_zag :
    (k u : ℕ)
    → u < 2 ^ suc k
    → (encode_zig_zag (suc k) (decode_zig_zag (suc k) u) ≡ u)
      × (decode_zig_zag (suc k) u < 2 ^ suc k)
encode-decode_zig_zag k u h = elim (Bool-cases (u % 2 == 0)) [
  | inl even ↦ rw (decode_zig_zag_even (suc k) u (ground arith)) (
    encode_zig_zag_pos k (u / 2) (omega (arith, two_pow_suc k)) ∙ ground arith,
    omega (arith, two_pow_suc k),
  )
  | inr odd ↦ rw (decode_zig_zag_odd (suc k) u h (ground arith)) (
    encode_zig_zag_neg k _ (omega (arith, two_pow_suc k)) (omega (arith, two_pow_suc k))
        ∙ ground (arith, two_pow_suc k),
    omega (arith, two_pow_suc k),
  )
]
