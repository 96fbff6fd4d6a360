-- ===== src/Coding/Varint/Decode.antt =====
-- src/coding.cpp: what `DecodeVarint` makes of the bytes that `EncodeVarint` writes.
use xfutil.Base.{
  ℕ, zero, suc, ◌+◌, ◌*◌, ◌/◌, ◌%◌, ◌^◌, ◌≤◌, ◌<◌, ◌≡◌, ap, ap₂, subst, ◌∙◌, arith, List, ◌∷◌,
  length, ltb, bit_or, bit_and, Bool, true, false, lt→ltb, le→leb, lt→leb_false, Bool-cases, inl,
  inr, ltb→lt, ltb_false→le,
}
use xfutil.Base.Bits.{bit_or_field, bit_and_low7, split_low7, two_pow_add7}
use xfutil.Memory.{Mem, Holds}
use xfutil.Coding.{Decoded}
use xfutil.Coding.Varint.{decode_varint_loop, decode_varint}
use xfutil.Coding.Varint.Encode.{groups, varint, groups_last, groups_more}
use native.Mathlib.Nat.{mod-eq_of_lt, pow-suc, mul-le-mul_right}

-- `v |= x << shift` in 64 bits, where the sum fits.
or_shifted :
    (v x shift : ℕ)
    → v < 2 ^ shift
    → v + x * 2 ^ shift < 2 ^ 64
    → bit_or v (x * 2 ^ shift % 2 ^ 64) ≡ v + x * 2 ^ shift
or_shifted v x shift hv h =
    rw (mod-eq_of_lt {n = x * 2 ^ shift} {m = 2 ^ 64} (omega arith)) (bit_or_field shift v x hv)

abbrev pub decoded : Bool → ℕ → ℕ → Decoded ℕ
decoded ret buf v = record { ret = ret; buf = buf; v = v }

module _ (rounds : ℕ) (mem : Mem) (buf end v shift : ℕ) (hs : shift < 64) (he : buf < end) where
  decode_last :
      (w : ℕ)
      → w < 128
      → mem buf ≡ w
      → v < 2 ^ shift
      → v + w * 2 ^ shift < 2 ^ 64
      → decode_varint_loop (suc rounds) mem buf end v shift
        ≡ record { ret = true; buf = buf + 1; v = v + w * 2 ^ shift }
  unfolding decode_varint_loop
  decode_last w hw hm hv h = rw (lt→ltb shift 64 hs) (
      rw (lt→ltb buf end he) (
        rw hm (
          rw (lt→leb_false 128 w hw)
            (ap (λ (x : ℕ). decoded true (buf + 1) x) (or_shifted v w shift hv h)))))

  decode_more :
      (w : ℕ)
      → w < 128
      → mem buf ≡ w + 128
      → v < 2 ^ shift
      → v + w * 2 ^ shift < 2 ^ 64
      → decode_varint_loop (suc rounds) mem buf end v shift
        ≡ decode_varint_loop rounds mem (buf + 1) end (v + w * 2 ^ shift) (shift + 7)
  unfolding decode_varint_loop
  decode_more w hw hm hv h = rw (lt→ltb shift 64 hs) (
      rw (lt→ltb buf end he) (
        rw hm (
          rw (le→leb 128 (w + 128) (omega arith)) (
            ap (λ (x : ℕ). decode_varint_loop rounds mem (buf + 1) end x (shift + 7))
              (rw low (or_shifted v w shift hv h))))))
    where
      low : bit_and (w + 128) 0x7f ≡ w
      low = omega (arith, bit_and_low7 (w + 128))

decode_stop :
    (rounds : ℕ) (mem : Mem) (buf end v shift : ℕ)
    → buf ≡ end
    → ((decode_varint_loop (suc rounds) mem buf end v shift).ret ≡ false)
      × ((decode_varint_loop (suc rounds) mem buf end v shift).buf ≡ end)
unfolding decode_varint_loop
decode_stop rounds mem buf end v shift h = ground arith

-- The bytes of `w` are at `buf`, below `end`, and `w` counts from bit `shift` on.
record Pending (mem : Mem) (buf end v w shift : ℕ) (bytes : List ℕ) : Type 0 where
  low : v < 2 ^ shift
  fits : v + w * 2 ^ shift < 2 ^ 64
  room : buf + length bytes ≤ end
  held : Holds mem buf bytes

-- After one byte with the top bit set, the rest is pending seven bits further up.
Pending-next :
    (mem : Mem) (buf end v w shift : ℕ) (rest : List ℕ)
    → Pending mem buf end v w shift ((w % 128 + 128) ∷ rest)
    → Pending mem (buf + 1) end (v + w % 128 * 2 ^ shift) (w / 128) (shift + 7) rest
Pending-next mem buf end v w shift rest p = record {
  low = omega (arith, two_pow_add7 shift, below);
  fits = omega (arith, split_low7 w shift, p.fits);
  room = omega (arith, p.room);
  held = subst (λ (q : ℕ). Holds mem q rest) (omega arith) p.held.1;
}
  where
    below : w % 128 * 2 ^ shift ≤ 127 * 2 ^ shift
    below = mul-le-mul_right (2 ^ shift) (omega arith)

decode_varint_loop-groups :
    (k rounds : ℕ) (mem : Mem) (buf end v w shift : ℕ)
    → k < rounds
    → shift + 7 * k < 64
    → w < 128 ^ suc k
    → Pending mem buf end v w shift (groups k w)
    → decode_varint_loop rounds mem buf end v shift
      ≡ decoded true (buf + length (groups k w)) (v + w * 2 ^ shift)
unfolding groups
decode_varint_loop-groups k zero mem buf end v w shift hk hs hw p = absurd (omega arith)
decode_varint_loop-groups zero (suc rounds) mem buf end v w shift hk hs hw p =
    decode_last rounds mem buf end v shift (omega arith) (omega (arith, p.room)) w (omega arith)
      p.held.0 p.low p.fits
decode_varint_loop-groups (suc k) (suc rounds) mem buf end v w shift hk hs hw p =
    elim (Bool-cases (ltb w 128)) [
      | inl small ↦
          let one = groups_last (suc k) w (ltb→lt _ _ small) in
          let q = subst (Pending mem buf end v w shift) one p in
          rw one (
            decode_last rounds mem buf end v shift (omega arith) (omega (arith, q.room)) w
              (ltb→lt _ _ small) q.held.0 q.low q.fits)
      | inr large ↦
          let more = groups_more k w (ltb_false→le _ _ large) in
          let q = subst (Pending mem buf end v w shift) more p in
          let r = Pending-next mem buf end v w shift (groups k (w / 128)) q in
          rw more (
            decode_more rounds mem buf end v shift (omega arith) (omega (arith, q.room)) (w % 128)
              (omega arith) q.held.0 q.low (omega (arith, q.fits, split_low7 w shift))
            ∙ decode_varint_loop-groups k rounds mem (buf + 1) end (v + w % 128 * 2 ^ shift)
                (w / 128) (shift + 7) (omega arith) (omega arith)
                (omega (arith, pow-suc 128 (suc k))) r
            ∙ ap₂ (decoded true) (omega arith) (omega (arith, split_low7 w shift)))
    ]

-- Where the encoding of a `uint64_t` stands below the end, `DecodeVarint` reads it.
pub decode_varint-Holds :
    (mem : Mem) (buf end v : ℕ)
    → v < 2 ^ 64
    → buf + length (varint v) ≤ end
    → Holds mem buf (varint v)
    → decode_varint mem buf end ≡ decoded true (buf + length (varint v)) v
unfolding decode_varint
decode_varint-Holds mem buf end v hv room held =
    decode_varint_loop-groups 9 10 mem buf end 0 v 0 (omega arith) (omega arith) (omega arith)
      (record { low = omega arith; fits = omega arith; room = room; held = held })
    ∙ ap (decoded true (buf + length (varint v))) (omega arith)

decode_varint_loop_cut :
    (k rounds : ℕ) (mem : Mem) (buf end v w shift : ℕ)
    → k < rounds
    → shift + 7 * k < 64
    → w < 128 ^ suc k
    → Pending mem buf (buf + length (groups k w)) v w shift (groups k w)
    → buf ≤ end
    → end < buf + length (groups k w)
    → ((decode_varint_loop rounds mem buf end v shift).ret ≡ false)
      × ((decode_varint_loop rounds mem buf end v shift).buf ≡ end)
unfolding groups
decode_varint_loop_cut k zero mem buf end v w shift hk hs hw p lo hi = absurd (omega arith)
decode_varint_loop_cut zero (suc rounds) mem buf end v w shift hk hs hw p lo hi =
    decode_stop rounds mem buf end v shift (omega arith)
decode_varint_loop_cut (suc k) (suc rounds) mem buf end v w shift hk hs hw p lo hi =
    elim (Bool-cases (ltb w 128)) [
      | inl small ↦
          let one = groups_last (suc k) w (ltb→lt _ _ small) in
          let hi' = subst (λ (l : List ℕ). end < buf + length l) one hi in
          decode_stop rounds mem buf end v shift (omega arith)
      | inr large ↦ elim (Bool-cases (ltb buf end)) [
        | inr full ↦ decode_stop rounds mem buf end v shift (omega (arith, ltb_false→le _ _ full))
        | inl room ↦
            let more = groups_more k w (ltb_false→le _ _ large) in
            let q = subst (λ (l : List ℕ). Pending mem buf (buf + length l) v w shift l) more p in
            let hi' = subst (λ (l : List ℕ). end < buf + length l) more hi in
            let r = Pending-next mem buf _ v w shift (groups k (w / 128)) q in
            rw
              (decode_more rounds mem buf end v shift (omega arith) (ltb→lt _ _ room) (w % 128)
                (omega arith) q.held.0 q.low (omega (arith, q.fits, split_low7 w shift)))
              (decode_varint_loop_cut k rounds mem (buf + 1) end (v + w % 128 * 2 ^ shift) (w / 128)
                (shift + 7) (omega arith) (omega arith) (omega (arith, pow-suc 128 (suc k)))
                (record { low = r.low; fits = r.fits; room = omega arith; held = r.held })
                (omega (arith, ltb→lt _ _ room)) (omega arith))
      ]
    ]

-- Where the end cuts the encoding of a `uint64_t` short, `DecodeVarint` fails at the end.
pub decode_varint_cut :
    (mem : Mem) (buf end v : ℕ)
    → v < 2 ^ 64
    → Holds mem buf (varint v)
    → buf ≤ end
    → end < buf + length (varint v)
    → ((decode_varint mem buf end).ret ≡ false) × ((decode_varint mem buf end).buf ≡ end)
unfolding decode_varint
decode_varint_cut mem buf end v hv held lo hi =
    decode_varint_loop_cut 9 10 mem buf end 0 v 0 (omega arith) (omega arith) (omega arith)
      (record { low = omega arith; fits = omega arith; room = omega arith; held = held }) lo hi
