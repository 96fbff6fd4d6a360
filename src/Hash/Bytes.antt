-- ===== src/Hash/Bytes.antt =====
-- src/hash.cpp: `Hash32` of a buffer, as a fold over its bytes four at a time.
use xfutil.Base.{
  ℕ, zero, suc, ◌+◌, ◌*◌, ◌/◌, ◌%◌, ◌^◌, ◌≤◌, ◌<◌, ◌≡◌, refl, ap, ap₂, subst, ◌∙◌, arith, List, [],
  ◌∷◌, length, All, bit_or, bit_and, if◌then◌else◌, ◌==◌, lt→leb_false, le→leb,
}
use xfutil.Base.Bits.{bit_or_field, bit_and_low32, bit_or_comm, zero-bit_or}
use xfutil.Memory.{Mem, Holds, write}
use xfutil.Memory.Laws.{write-Holds}
use xfutil.Coding.Fixed.{word32, decode_fixed32, encode_fixed32, encode_fixed64}
use xfutil.Coding.Fixed.Bytes.{
  le_bytes, le_value, word32-le_value, encode_fixed32-write, encode_fixed64-write,
  le_value-le_bytes,
}
use xfutil.Hash.{decode_tail, mix, hash32_loop, hash32_rest, hash32, hash32_u32, hash32_u64}
use native.Mathlib.Numerals.{towards_suc}

-- The hash of bytes: whole words first, then what is left of one to three bytes, if any.
abbrev pub hash_bytes : ℕ → ℕ → List ℕ → ℕ
hash_bytes seed h [] = h
hash_bytes seed h (a ∷ []) = mix seed h (le_value (a ∷ []))
hash_bytes seed h (a ∷ b ∷ []) = mix seed h (le_value (a ∷ b ∷ []))
hash_bytes seed h (a ∷ b ∷ c ∷ []) = mix seed h (le_value (a ∷ b ∷ c ∷ []))
hash_bytes seed h (a ∷ b ∷ c ∷ d ∷ rest) =
    hash_bytes seed (mix seed h (le_value (a ∷ b ∷ c ∷ d ∷ []))) rest

abbrev IsByte : ℕ → Type 0
IsByte b = b < 256

decode_tail-le_value :
    (mem : Mem) (p : ℕ) (bs : List ℕ)
    → All IsByte bs
    → Holds mem p bs
    → length bs < 4
    → decode_tail mem p (length bs) ≡ le_value bs
unfolding decode_tail
decode_tail-le_value mem p [] ok held few = refl
decode_tail-le_value mem p (a ∷ []) (ha, _) (pa, _) few = omega (arith, zero-bit_or (mem p))
decode_tail-le_value mem p (a ∷ b ∷ []) (ha, (hb, _)) (pa, (pb, _)) few =
    simp (towards_suc, zero-bit_or, pa, pb)
      (bit_or_comm (b * 2 ^ 8) a ∙ bit_or_field 8 a b ha ∙ omega arith)
decode_tail-le_value mem p (a ∷ b ∷ c ∷ []) (ha, (hb, (hc, _))) (pa, (pb, (pc, _))) few =
    simp (towards_suc, zero-bit_or, pa, pb, pc)
      (ap (λ (t : ℕ). bit_or t a) high
        ∙ bit_or_comm ((b + 256 * c) * 2 ^ 8) a
        ∙ bit_or_field 8 a (b + 256 * c) ha
        ∙ omega arith)
  where
    high : bit_or (c * 2 ^ 16) (b * 2 ^ 8) ≡ (b + 256 * c) * 2 ^ 8
    high =
        bit_or_comm (c * 2 ^ 16) (b * 2 ^ 8)
        ∙ bit_or_field 16 (b * 2 ^ 8) c (omega arith)
        ∙ omega arith
decode_tail-le_value mem p (a ∷ b ∷ c ∷ d ∷ rest) ok held few = absurd (omega arith)

-- With fewer than four bytes left the loop stops.
hash32_loop_stop :
    (rounds seed : ℕ) (mem : Mem) (p end v h : ℕ)
    → end < p + 4
    → hash32_loop (suc rounds) seed mem p end v h ≡ (h, p)
unfolding hash32_loop decode_fixed32
hash32_loop_stop rounds seed mem p end v h few =
    rw (if◌then◌else◌, ◌==◌, lt→leb_false (p + 4) end few)

hash32_loop_word :
    (rounds seed : ℕ) (mem : Mem) (p end v h : ℕ)
    → p + 4 ≤ end
    → hash32_loop (suc rounds) seed mem p end v h
      ≡ hash32_loop rounds seed mem (p + 4) end (word32 mem p) (mix seed h (word32 mem p))
unfolding hash32_loop decode_fixed32
hash32_loop_word rounds seed mem p end v h room = rw (le→leb (p + 4) end room)

-- With fewer than four bytes left, the tail.
hash32_few :
    (rounds seed : ℕ) (mem : Mem) (p len v h : ℕ) (bs : List ℕ)
    → All IsByte bs
    → Holds mem p bs
    → len % 4 ≡ length bs
    → hash32_rest seed mem len (hash32_loop (suc rounds) seed mem p (p + length bs) v h)
      ≡ (if length bs == 0 then h else mix seed h (le_value bs))
unfolding hash32_rest
hash32_few rounds seed mem p len v h bs ok held e =
    rw (hash32_loop_stop rounds seed mem p (p + length bs) v h (omega arith))
      (rw e (rw (decode_tail-le_value mem p bs ok held (omega arith))))

-- The loop and the tail together fold the bytes from `p` to the end. `len` is the length from the
-- start of the buffer, which differs by whole words.
hash32_loop-hash_bytes :
    (rounds seed : ℕ) (mem : Mem) (p len v h : ℕ) (bs : List ℕ)
    → length bs / 4 < rounds
    → All IsByte bs
    → Holds mem p bs
    → len % 4 ≡ length bs % 4
    → hash32_rest seed mem len (hash32_loop rounds seed mem p (p + length bs) v h)
      ≡ hash_bytes seed h bs
hash32_loop-hash_bytes zero seed mem p len v h bs fuel ok held e = absurd (omega arith)
hash32_loop-hash_bytes (suc rounds) seed mem p len v h [] fuel ok held e =
    hash32_few rounds seed mem p len v h [] ok held (omega arith)
hash32_loop-hash_bytes (suc rounds) seed mem p len v h (a ∷ []) fuel ok held e =
    hash32_few rounds seed mem p len v h (a ∷ []) ok held (omega arith)
hash32_loop-hash_bytes (suc rounds) seed mem p len v h (a ∷ b ∷ []) fuel ok held e =
    hash32_few rounds seed mem p len v h (a ∷ b ∷ []) ok held (omega arith)
hash32_loop-hash_bytes (suc rounds) seed mem p len v h (a ∷ b ∷ c ∷ []) fuel ok held e =
    hash32_few rounds seed mem p len v h (a ∷ b ∷ c ∷ []) ok held (omega arith)
hash32_loop-hash_bytes (suc rounds) seed mem p len v h (a ∷ b ∷ c ∷ d ∷ rest) fuel ok held e =
    rw (hash32_loop_word rounds seed mem p (p + length (a ∷ b ∷ c ∷ d ∷ rest)) v h (omega arith)) (
      rw word (
        rw next (
          hash32_loop-hash_bytes rounds seed mem (p + 4) len _ _ rest (omega arith) ok.1.1.1.1 held'
            (omega arith))))
  where
    word : word32 mem p ≡ le_value (a ∷ b ∷ c ∷ d ∷ [])
    word =
        word32-le_value mem p a b c d ok.0 ok.1.0 ok.1.1.0
          (held.0, (held.1.0, (held.1.1.0, (held.1.1.1.0, tt))))

    next : p + length (a ∷ b ∷ c ∷ d ∷ rest) ≡ p + 4 + length rest
    next = omega arith

    held' : Holds mem (p + 4) rest
    held' = subst (λ (q : ℕ). Holds mem q rest) (omega arith) held.1.1.1.1

-- `Hash32` of a buffer mixes in its little-endian words, from the first on, and then the number that
-- the one to three remaining bytes make, if there are any.
pub hash32-hash_bytes :
    (mem : Mem) (data_ v seed : ℕ) (bs : List ℕ)
    → All IsByte bs
    → Holds mem data_ bs
    → hash32 v mem data_ (length bs) seed ≡ hash_bytes seed (seed * length bs % 2 ^ 64 % 2 ^ 32) bs
unfolding hash32
hash32-hash_bytes mem data_ v seed bs ok held =
    hash32_loop-hash_bytes _ seed mem data_ (length bs) v _ bs (omega arith) ok held refl

le_bytes-IsByte : (n v : ℕ) → All IsByte (le_bytes n v)
le_bytes-IsByte zero v = tt
le_bytes-IsByte (suc n) v = (omega arith, le_bytes-IsByte n (v / 256))

-- `Hash32` of a `uint32_t` is `Hash32` of the four bytes that `EncodeFixed` writes of it.
pub hash32_u32-encode_fixed32 :
    (mem : Mem) (buf v0 value seed : ℕ)
    → value < 2 ^ 32
    → seed < 2 ^ 32
    → hash32 v0 (encode_fixed32 mem buf value).0 buf 4 seed ≡ hash32_u32 value seed
unfolding hash32_u32
hash32_u32-encode_fixed32 mem buf v0 value seed hv hs = rw (encode_fixed32-write mem buf value) (
    hash32-hash_bytes (write mem buf (le_bytes 4 value)) buf v0 seed (le_bytes 4 value)
      (le_bytes-IsByte 4 value) (write-Holds (le_bytes 4 value) mem buf)
    ∙ ap₂ (mix seed) (omega arith) (le_value-le_bytes 4 value hv))

-- `Hash32` of a `uint64_t` is `Hash32` of the eight bytes that `EncodeFixed` writes of it.
pub hash32_u64-encode_fixed64 :
    (mem : Mem) (buf v0 value seed : ℕ)
    → value < 2 ^ 64
    → seed < 2 ^ 32
    → hash32 v0 (encode_fixed64 mem buf value).0 buf 8 seed ≡ hash32_u64 value seed
unfolding hash32_u64
hash32_u64-encode_fixed64 mem buf v0 value seed hv hs = rw (encode_fixed64-write mem buf value) (
    hash32-hash_bytes (write mem buf (le_bytes 8 value)) buf v0 seed (le_bytes 8 value)
      (le_bytes-IsByte 8 value) (write-Holds (le_bytes 8 value) mem buf)
    ∙ ap₂ (mix seed) (ap₂ (mix seed) (omega arith) low) high)
  where
    low : le_value (le_bytes 4 value) ≡ bit_and value 0xffffffff
    low = rw (bit_and_low32 value) (omega arith)

    high : le_value (le_bytes 4 (value / 256 / 256 / 256 / 256)) ≡ value / 2 ^ 32 % 2 ^ 32
    high = omega arith
