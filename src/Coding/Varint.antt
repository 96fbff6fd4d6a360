-- ===== src/Coding/Varint.antt =====
-- src/coding.cpp: `EncodeVarint` and `DecodeVarint` of a `uint64_t`, seven bits a byte, lowest group
-- first, the top bit set on every byte but the last; include/xfutil/coding.h: their overloads at the
-- narrower and the signed types.
pub mod Encode
pub mod Decode
pub mod Safety
pub mod RoundTrip
use xfutil.Base.{
  ℕ, zero, suc, ◌+◌, ◌*◌, ◌/◌, ◌%◌, ◌^◌, ◌≤◌, ◌<◌, arith, Bool, true, false, ◌&&◌, ltb, leb,
  bit_and, bit_or, if◌then◌else◌,
}
use xfutil.Base.Order.{lt_wf}
use xfutil.Memory.{Mem, store}
use xfutil.Coding.{Decoded}
use xfutil.Coding.ZigZag.{encode_zig_zag, decode_zig_zag}
use mathlib.Core.Logic.{dite}
use mathlib.Core.WellFounded.{Acc}
use native.Mathlib.Decide.{dec_le}

pub shift_shrinks : (v : ℕ) → 0x80 ≤ v → v / 2 ^ 7 < v
shift_shrinks v h = omega arith

-- `while(v >= 0x80) { *(buf++) = v | 0x80; v >>= 7; } *(buf++) = v;`
pub encode_varint_loop : Mem → ℕ → (v : ℕ) → Acc ◌<◌ v → Mem × ℕ
encode_varint_loop mem buf v (Acc.intro _ smaller) =
    dite (dec_le 0x80 v)
      (λ more.
        encode_varint_loop (store mem buf (bit_or v 0x80 % 256)) (buf + 1) (v / 2 ^ 7)
          (smaller (v / 2 ^ 7) (shift_shrinks v more)))
      (λ _. (store mem buf (v % 256), buf + 1))

unfoldable pub encode_varint : Mem → ℕ → ℕ → Mem × ℕ
unfolding encode_varint_loop lt_wf dec_le
encode_varint mem buf v = encode_varint_loop mem buf v (lt_wf.apply v)

-- `EncodeVarint` of a signed value of `w` bits.
unfoldable pub encode_varint_signed : ℕ → Mem → ℕ → ℕ → Mem × ℕ
encode_varint_signed w mem buf v = encode_varint mem buf (encode_zig_zag w v)

-- The `for` loop over `shift`; `rounds` bounds the rounds left, and ten reach shift 70.
unfoldable pub decode_varint_loop : ℕ → Mem → ℕ → ℕ → ℕ → ℕ → Decoded ℕ
decode_varint_loop zero mem buf end v shift = record { ret = false; buf = buf; v = v }
decode_varint_loop (suc rounds) mem buf end v shift =
    let b = mem buf in
    let group = bit_or v (bit_and b 0x7f * 2 ^ shift % 2 ^ 64) in
    let more = decode_varint_loop rounds mem (buf + 1) end group (shift + 7) in
    let last : Decoded ℕ = record {
      ret = true;
      buf = buf + 1;
      v = bit_or v (b * 2 ^ shift % 2 ^ 64);
    } in
    if ltb shift 64 && ltb buf end
    then (if leb 0x80 b then more else last)
    else record { ret = false; buf = buf; v = v }

unfoldable pub decode_varint : Mem → ℕ → ℕ → Decoded ℕ
decode_varint mem buf end = decode_varint_loop 10 mem buf end 0 0

-- `DecodeVarint` of a `uint16_t` or `uint32_t` keeps the `w` low bits of the 64-bit value.
unfoldable pub decode_varint_narrow : ℕ → Mem → ℕ → ℕ → Decoded ℕ
decode_varint_narrow w mem buf end =
    let d = decode_varint mem buf end in record { ret = d.ret; buf = d.buf; v = d.v % 2 ^ w }

-- `DecodeVarint` of a signed value of `w` bits.
unfoldable pub decode_varint_signed : ℕ → Mem → ℕ → ℕ → Decoded ℕ
decode_varint_signed w mem buf end =
    let d = decode_varint mem buf end in
    record { ret = d.ret; buf = d.buf; v = decode_zig_zag w (d.v % 2 ^ w) }
