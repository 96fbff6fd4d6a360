-- ===== src/Coding/Backward/RoundTrip.antt =====
-- src/coding.cpp: `DecodeVarintR` after `EncodeVarintR`.
use xfutil.Base.{
  ℕ, zero, suc, ◌+◌, ◌-◌, ◌*◌, ◌/◌, ◌%◌, ◌^◌, ◌≤◌, ◌<◌, ◌≡◌, refl, ap, ap₂, subst, ◌∙◌, arith, ltb,
  ◌==◌, bit_or, bit_and, true, false, Bool-cases, inl, inr, lt→ltb, le→leb, lt→leb_false,
}
use xfutil.Base.Bits.{bit_or_field, bit_and_low7, split_low7, two_pow_add7, bit_or_top7}
use xfutil.Memory.{Mem, store}
use xfutil.Coding.Backward.{marked, encode_varint_r, decode_varint_r_loop, decode_varint_r}
use xfutil.Coding.Varint.Decode.{decoded}
use native.Mathlib.Nat.{mod-eq_of_lt, mul-le-mul_right}

-- The groups of `w`, `k` of them and one more, from `p` down.
abbrev HoldsDown : Mem → ℕ → ℕ → ℕ → Type 0
HoldsDown mem p zero w = (w < 128) × (mem p ≡ w)
HoldsDown mem p (suc k) w = (mem p ≡ w % 128 + 128) × HoldsDown mem (p - 1) k (w / 128)

or_shifted :
    (v x shift : ℕ)
    → v < 2 ^ shift
    → v + x * 2 ^ shift < 2 ^ 32
    → bit_or v (x * 2 ^ shift % 2 ^ 32) ≡ v + x * 2 ^ shift
or_shifted v x shift hv h =
    rw (mod-eq_of_lt {n = x * 2 ^ shift} {m = 2 ^ 32} (omega arith)) (bit_or_field shift v x hv)

decode-HoldsDown :
    (k rounds : ℕ) (mem : Mem) (rbuf rend v w shift : ℕ)
    → k < rounds
    → shift + 7 * k < 32
    → rbuf < rend
    → v < 2 ^ shift
    → v + w * 2 ^ shift < 2 ^ 32
    → HoldsDown mem rbuf k w
    → decode_varint_r_loop rounds mem rbuf rend v shift
      ≡ decoded true (rbuf - (k + 1)) (v + w * 2 ^ shift)
unfolding decode_varint_r_loop
decode-HoldsDown k zero mem rbuf rend v w shift hk hs he low fits h = absurd (omega arith)
decode-HoldsDown zero (suc rounds) mem rbuf rend v w shift hk hs he low fits h =
    rw (lt→ltb shift 32 (omega arith), lt→ltb rbuf rend he, h.1, lt→leb_false 128 w h.0)
      (ap (decoded true (rbuf - 1)) (or_shifted v w shift low fits))
decode-HoldsDown (suc k) (suc rounds) mem rbuf rend v w shift hk hs he low fits h =
    let sum = split_low7 w shift in
    let below : w % 128 * 2 ^ shift ≤ 127 * 2 ^ shift =
      mul-le-mul_right (2 ^ shift) (omega arith) in
    let first = or_shifted v (w % 128) shift low (omega (arith, fits, sum)) in
    let group : bit_and (w % 128 + 128) 0x7f ≡ w % 128 =
      omega (arith, bit_and_low7 (w % 128 + 128)) in
    rw
      (
        lt→ltb shift 32 (omega arith),
        lt→ltb rbuf rend he,
        h.0,
        le→leb 128 (w % 128 + 128) (omega arith),
        group,
        first,
      )
      (decode-HoldsDown k rounds mem (rbuf - 1) rend (v + w % 128 * 2 ^ shift) (w / 128) (shift + 7)
          (omega arith) (omega arith) (omega arith) (omega (arith, two_pow_add7 shift, below))
          (omega (arith, sum, fits)) h.1
        ∙ ap₂ (decoded true) (omega arith) (omega (arith, sum)))

decode_down :
    (k : ℕ) (mem : Mem) (rbuf rend w : ℕ)
    → k < 5
    → rbuf < rend
    → w < 2 ^ 32
    → HoldsDown mem rbuf k w
    → decode_varint_r mem rbuf rend ≡ decoded true (rbuf - (k + 1)) w
unfolding decode_varint_r
decode_down k mem rbuf rend w hk he hw h =
    decode-HoldsDown k 5 mem rbuf rend 0 w 0 hk (omega arith) he (omega arith) (omega arith) h
    ∙ ap (decoded true (rbuf - (k + 1))) (omega arith)

HoldsDown-store :
    (mem : Mem) (p q b k w : ℕ) → p < q → HoldsDown mem p k w → HoldsDown (store mem q b) p k w
unfolding store
HoldsDown-store mem p q b zero w h d =
    let apart : (p == q) ≡ false = ground arith in (d.0, rw apart d.1)
HoldsDown-store mem p q b (suc k) w h d =
    let apart : (p == q) ≡ false = ground arith in
    (rw apart d.0, HoldsDown-store mem (p - 1) q b k (w / 128) (omega arith) d.1)

first-HoldsDown : (mem : Mem) (p w : ℕ) → w < 128 → HoldsDown (store mem p (w % 256)) p 0 w
unfolding store
first-HoldsDown mem p w h = (h, ground arith)

-- A group below the others, in the next byte.
next-HoldsDown :
    (mem : Mem) (p q k u w : ℕ)
    → q ≡ p + 1
    → w / 128 ≡ u
    → HoldsDown mem p k u
    → HoldsDown (store mem q (marked w)) q (suc k) w
unfolding store
next-HoldsDown mem p q k u w at is d =
    let here : (q == q) ≡ true = ground arith in
    let under : q - 1 ≡ p = omega (arith, at) in
    let kept = HoldsDown-store mem p q (marked w) k u (omega (arith, at)) d in
    (rw here (bit_or_top7 w), rw (under, is) kept)

-- What `EncodeVarintR` gives for `k` groups and one more.
abbrev EncodesDown : ℕ → ℕ → Mem × ℕ → Type 0
EncodesDown buf v r = (k : ℕ) × (k < 5) × (r.1 ≡ buf + (k + 1)) × HoldsDown r.0 (buf + k) k v

ends :
    (buf v : ℕ) (m : Mem) (q n k : ℕ)
    → k < 5
    → q ≡ buf + k
    → n ≡ buf + (k + 1)
    → HoldsDown m q k v
    → EncodesDown buf v (m, n)
ends buf v m q n k few at end d = (k, few, end, subst (λ p. HoldsDown m p k v) at d)

encode-EncodesDown :
    (mem : Mem) (buf v : ℕ) → v < 2 ^ 32 → EncodesDown buf v (encode_varint_r mem buf v)
unfolding encode_varint_r
encode-EncodesDown mem buf v hv = elim (Bool-cases (ltb v (2 ^ 7))) [
  | inl one ↦ rw one (
      ends buf v _ buf _ 0 (omega arith) (omega arith) (omega arith)
        (first-HoldsDown mem buf v (ground arith)))
  | inr more1 ↦ elim (Bool-cases (ltb v (2 ^ 14))) [
    | inl two ↦
        rw (more1, two)
          (ends buf v _ (buf + 1) _ 1 (omega arith) refl (omega arith) (
            next-HoldsDown _ buf (buf + 1) 0 (v / 2 ^ 7) v refl refl
              (first-HoldsDown mem buf (v / 2 ^ 7) (ground arith))))
    | inr more2 ↦ elim (Bool-cases (ltb v (2 ^ 21))) [
      | inl three ↦
          rw (more1, more2, three)
            (ends buf v _ (buf + 2) _ 2 (omega arith) refl (omega arith) (
              next-HoldsDown _ (buf + 1) (buf + 2) 1 (v / 2 ^ 7) v (omega arith) refl (
                next-HoldsDown _ buf (buf + 1) 0 (v / 2 ^ 14) (v / 2 ^ 7) refl (omega arith)
                  (first-HoldsDown mem buf (v / 2 ^ 14) (ground arith)))))
      | inr more3 ↦ elim (Bool-cases (ltb v (2 ^ 28))) [
        | inl four ↦
            rw (more1, more2, more3, four)
              (ends buf v _ (buf + 3) _ 3 (omega arith) refl (omega arith) (
                next-HoldsDown _ (buf + 2) (buf + 3) 2 (v / 2 ^ 7) v (omega arith) refl (
                  next-HoldsDown _ (buf + 1) (buf + 2) 1 (v / 2 ^ 14) (v / 2 ^ 7) (omega arith)
                    (omega arith)
                    (next-HoldsDown _ buf (buf + 1) 0 (v / 2 ^ 21) (v / 2 ^ 14) refl (omega arith)
                      (first-HoldsDown mem buf (v / 2 ^ 21) (ground arith))))))
        | inr five ↦
            rw (more1, more2, more3, five)
              (ends buf v _ (buf + 4) _ 4 (omega arith) refl (omega arith) (
                next-HoldsDown _ (buf + 3) (buf + 4) 3 (v / 2 ^ 7) v (omega arith) refl (
                  next-HoldsDown _ (buf + 2) (buf + 3) 2 (v / 2 ^ 14) (v / 2 ^ 7) (omega arith)
                    (omega arith)
                    (next-HoldsDown _ (buf + 1) (buf + 2) 1 (v / 2 ^ 21) (v / 2 ^ 14) (omega arith)
                      (omega arith)
                      (next-HoldsDown _ buf (buf + 1) 0 (v / 2 ^ 28) (v / 2 ^ 21) refl (omega arith)
                        (first-HoldsDown mem buf (v / 2 ^ 28) (omega arith)))))))
      ]
    ]
  ]
]

-- What `EncodeVarintR` wrote of a `uint32_t`, `DecodeVarintR` reads back from the last byte down, where
-- `rend` is above that byte, and stops before the first byte.
pub decode-encode_varint_r :
    (mem : Mem) (buf rend v : ℕ)
    → v < 2 ^ 32
    → 0 < buf
    → (encode_varint_r mem buf v).1 ≤ rend
    → decode_varint_r (encode_varint_r mem buf v).0 ((encode_varint_r mem buf v).1 - 1) rend
      ≡ record { ret = true; buf = buf - 1; v = v }
decode-encode_varint_r mem buf rend v hv some room =
    let (k, few, end, d) = encode-EncodesDown mem buf v hv in
    let last : (encode_varint_r mem buf v).1 - 1 ≡ buf + k = omega (arith, end) in
    ap (λ p. decode_varint_r (encode_varint_r mem buf v).0 p rend) last
    ∙ decode_down k (encode_varint_r mem buf v).0 (buf + k) rend v few (omega (arith, end, room)) hv
        d
    ∙ ap (λ (p : ℕ). decoded true p v) (omega arith)
