-- ===== src/Coding/Fixed/Bytes.antt =====
-- The fixed encodings as little-endian byte lists.
use xfutil.Base.{
  ℕ, zero, suc, ◌+◌, ◌*◌, ◌/◌, ◌%◌, ◌^◌, ◌<◌, ◌≡◌, refl, ap, arith, List, [], ◌∷◌, length, bit_or,
}
use xfutil.Base.Bits.{bit_or_field}
use xfutil.Memory.{Mem, write, Holds}
use xfutil.Coding.Fixed.{
  encode_fixed8, encode_fixed16, encode_fixed32, encode_fixed64, word32, word64,
}
use native.Mathlib.Numerals.{towards_suc}
use native.Mathlib.Nat.{pow-suc}

-- `n` bytes of `v`, lowest first.
abbrev pub le_bytes : ℕ → ℕ → List ℕ
le_bytes zero v = []
le_bytes (suc n) v = v % 256 ∷ le_bytes n (v / 256)

-- The number that the bytes stand for.
abbrev pub le_value : List ℕ → ℕ
le_value [] = 0
le_value (b ∷ bs) = b + 256 * le_value bs

pub le_value-le_bytes : (n v : ℕ) → v < 256 ^ n → le_value (le_bytes n v) ≡ v
le_value-le_bytes zero v h = omega arith
le_value-le_bytes (suc n) v h =
    omega (arith, le_value-le_bytes n (v / 256) (omega (arith, pow-suc 256 n)))

pub length-le_bytes : (n v : ℕ) → length (le_bytes n v) ≡ n
length-le_bytes zero v = refl
length-le_bytes (suc n) v = ap suc (length-le_bytes n (v / 256))

-- A shift by bytes is that many divisions by 256.
shr16 : (v : ℕ) → v / 2 ^ 16 ≡ v / 256 / 256
shr16 v = omega arith

shr24 : (v : ℕ) → v / 2 ^ 24 ≡ v / 256 / 256 / 256
shr24 v = omega arith

shr32 : (v : ℕ) → v / 2 ^ 32 ≡ v / 256 / 256 / 256 / 256
shr32 v = omega arith

shr40 : (v : ℕ) → v / 2 ^ 40 ≡ v / 256 / 256 / 256 / 256 / 256
shr40 v = omega arith

shr48 : (v : ℕ) → v / 2 ^ 48 ≡ v / 256 / 256 / 256 / 256 / 256 / 256
shr48 v = omega arith

shr56 : (v : ℕ) → v / 2 ^ 56 ≡ v / 256 / 256 / 256 / 256 / 256 / 256 / 256
shr56 v = omega arith

ruleset byte_shifts = (shr16, shr24, shr32, shr40, shr48, shr56)

-- Each encoder writes the little-endian bytes, and nothing else.
pub encode_fixed8-write :
    (mem : Mem) (buf v : ℕ) → encode_fixed8 mem buf v ≡ (write mem buf (le_bytes 1 v), buf + 1)
unfolding encode_fixed8 write
encode_fixed8-write mem buf v = refl

pub encode_fixed16-write :
    (mem : Mem) (buf v : ℕ) → encode_fixed16 mem buf v ≡ (write mem buf (le_bytes 2 v), buf + 2)
unfolding encode_fixed16 write
encode_fixed16-write mem buf v = simp towards_suc

pub encode_fixed32-write :
    (mem : Mem) (buf v : ℕ) → encode_fixed32 mem buf v ≡ (write mem buf (le_bytes 4 v), buf + 4)
unfolding encode_fixed32 write
encode_fixed32-write mem buf v = simp (towards_suc, byte_shifts)

pub encode_fixed64-write :
    (mem : Mem) (buf v : ℕ) → encode_fixed64 mem buf v ≡ (write mem buf (le_bytes 8 v), buf + 8)
unfolding encode_fixed64 write
encode_fixed64-write mem buf v = simp (towards_suc, byte_shifts)

-- One byte more in a chain of ors, above the `k` bits in use.
or_byte : (k x : ℕ) {v sum : ℕ} → v ≡ sum → sum < 2 ^ k → bit_or v (x * 2 ^ k) ≡ sum + x * 2 ^ k
or_byte k x {v} {sum} e h = rw e (bit_or_field k sum x h)

module _ (a b c d : ℕ) (ha : a < 256) (hb : b < 256) (hc : c < 256) where
  or16 : bit_or a (b * 2 ^ 8) ≡ a + b * 2 ^ 8
  or16 = or_byte 8 b refl ha

  or32 :
      bit_or (bit_or (bit_or a (b * 2 ^ 8)) (c * 2 ^ 16)) (d * 2 ^ 24)
      ≡ a + b * 2 ^ 8 + c * 2 ^ 16 + d * 2 ^ 24
  or32 = or_byte 24 d (or_byte 16 c or16 (omega arith)) (omega arith)

-- The decoders' chains of shifts and ors read the same value back.
pub word16-le_value :
    (mem : Mem) (buf a b : ℕ)
    → a < 256
    → Holds mem buf (a ∷ b ∷ [])
    → bit_or (mem buf) (mem (buf + 1) * 2 ^ 8) ≡ le_value (a ∷ b ∷ [])
word16-le_value mem buf a b ha (p, (q, _)) =
    simp (towards_suc, p, q) (omega (arith, or_byte 8 b refl ha))

module _ (mem : Mem) (buf a b c d : ℕ) (ha : a < 256) (hb : b < 256) (hc : c < 256) where
  pub word32-le_value :
      Holds mem buf (a ∷ b ∷ c ∷ d ∷ []) → word32 mem buf ≡ le_value (a ∷ b ∷ c ∷ d ∷ [])
  unfolding word32
  word32-le_value (p, (q, (r, (s, _)))) =
      simp (towards_suc, p, q, r, s) (omega (arith, or32 a b c d ha hb hc))

  pub word64-le_value :
      (e f g h : ℕ)
      → d < 256
      → e < 256
      → f < 256
      → g < 256
      → Holds mem buf (a ∷ b ∷ c ∷ d ∷ e ∷ f ∷ g ∷ h ∷ [])
      → word64 mem buf ≡ le_value (a ∷ b ∷ c ∷ d ∷ e ∷ f ∷ g ∷ h ∷ [])
  unfolding word64
  word64-le_value e f g h hd he hf hg (p, (q, (r, (s, (t, (u, (v, (w, _)))))))) =
      simp (towards_suc, t, u, v, w)
        (omega (
          arith,
          or_byte 56 h
              (or_byte 48 g
                (or_byte 40 f (or_byte 32 e (word32-le_value (p, (q, (r, (s, tt))))) (omega arith))
                  (omega arith))
                (omega arith))
              (omega arith),
        ))
