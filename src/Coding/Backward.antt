-- ===== src/Coding/Backward.antt =====
-- src/coding.cpp: `EncodeVarintR` and `DecodeVarintR` of a `uint32_t`, the highest group first, the top
-- bit set on every byte but the first, so that it is read from its last byte down.
pub mod RoundTrip
use xfutil.Base.{
  ℕ, zero, suc, ◌+◌, ◌-◌, ◌*◌, ◌/◌, ◌%◌, ◌^◌, Bool, true, false, ◌&&◌, ltb, leb, bit_and, bit_or,
  if◌then◌else◌,
}
use xfutil.Memory.{Mem, store}
use xfutil.Coding.{Decoded}

-- The byte of a group that is not the first: `v >> shift | 0x80`.
abbrev pub marked : ℕ → ℕ
marked v = bit_or v 0x80 % 256

unfoldable pub encode_varint_r : Mem → ℕ → ℕ → Mem × ℕ
encode_varint_r mem buf v =
    if ltb v (2 ^ 7)
    then (store mem buf (v % 256), buf + 1)
    else if ltb v (2 ^ 14)
    then (store (store mem buf (v / 2 ^ 7 % 256)) (buf + 1) (marked v), buf + 2)
    else if ltb v (2 ^ 21)
    then (
      store (store (store mem buf (v / 2 ^ 14 % 256)) (buf + 1) (marked (v / 2 ^ 7))) (buf + 2)
          (marked v),
      buf + 3,
    )
    else if ltb v (2 ^ 28)
    then (
      store
          (store (store (store mem buf (v / 2 ^ 21 % 256)) (buf + 1) (marked (v / 2 ^ 14)))
            (buf + 2) (marked (v / 2 ^ 7)))
          (buf + 3) (marked v),
      buf + 4,
    )
    else (
      store
          (store
            (store (store (store mem buf (v / 2 ^ 28 % 256)) (buf + 1) (marked (v / 2 ^ 21)))
              (buf + 2) (marked (v / 2 ^ 14)))
            (buf + 3) (marked (v / 2 ^ 7)))
          (buf + 4) (marked v),
      buf + 5,
    )

-- The `for` loop over `shift`; `rounds` bounds the rounds left, and five reach shift 35. The pointer
-- stops at address 0, below which no byte is.
unfoldable pub decode_varint_r_loop : ℕ → Mem → ℕ → ℕ → ℕ → ℕ → Decoded ℕ
decode_varint_r_loop zero mem rbuf rend v shift = record { ret = false; buf = rbuf; v = v }
decode_varint_r_loop (suc rounds) mem rbuf rend v shift =
    let b = mem rbuf in
    let group = bit_or v (bit_and b 0x7f * 2 ^ shift % 2 ^ 32) in
    let more = decode_varint_r_loop rounds mem (rbuf - 1) rend group (shift + 7) in
    let last : Decoded ℕ = record {
      ret = true;
      buf = rbuf - 1;
      v = bit_or v (b * 2 ^ shift % 2 ^ 32);
    } in
    if ltb shift 32 && ltb rbuf rend
    then (if leb 0x80 b then more else last)
    else record { ret = false; buf = rbuf; v = v }

unfoldable pub decode_varint_r : Mem → ℕ → ℕ → Decoded ℕ
decode_varint_r mem rbuf rend = decode_varint_r_loop 5 mem rbuf rend 0 0
