-- ===== src/Coding/Fixed.antt =====
-- include/xfutil/coding.h: `EncodeFixed` and `DecodeFixed` at each width, `EncodeFloat`,
-- `DecodeFloat`, `EncodeDouble`, `DecodeDouble`.
pub mod Bytes
pub mod RoundTrip
use xfutil.Base.{
  ℕ, ◌+◌, ◌*◌, ◌/◌, ◌%◌, ◌^◌, ◌<◌, ◌≡◌, Bool, true, false, leb, bit_or, if◌then◌else◌,
}
use xfutil.Memory.{Mem, store}
use xfutil.Coding.{Decoded}

unfoldable pub encode_fixed8 : Mem → ℕ → ℕ → Mem × ℕ
encode_fixed8 mem buf value = (store mem buf (value % 256), buf + 1)

unfoldable pub encode_fixed16 : Mem → ℕ → ℕ → Mem × ℕ
encode_fixed16 mem buf value =
    let m0 = store mem buf (value % 256) in
    let m1 = store m0 (buf + 1) (value / 2 ^ 8 % 256) in (m1, buf + 2)

unfoldable pub encode_fixed32 : Mem → ℕ → ℕ → Mem × ℕ
encode_fixed32 mem buf value =
    let m0 = store mem buf (value % 256) in
    let m1 = store m0 (buf + 1) (value / 2 ^ 8 % 256) in
    let m2 = store m1 (buf + 2) (value / 2 ^ 16 % 256) in
    let m3 = store m2 (buf + 3) (value / 2 ^ 24 % 256) in (m3, buf + 4)

unfoldable pub encode_fixed64 : Mem → ℕ → ℕ → Mem × ℕ
encode_fixed64 mem buf value =
    let m0 = store mem buf (value % 256) in
    let m1 = store m0 (buf + 1) (value / 2 ^ 8 % 256) in
    let m2 = store m1 (buf + 2) (value / 2 ^ 16 % 256) in
    let m3 = store m2 (buf + 3) (value / 2 ^ 24 % 256) in
    let m4 = store m3 (buf + 4) (value / 2 ^ 32 % 256) in
    let m5 = store m4 (buf + 5) (value / 2 ^ 40 % 256) in
    let m6 = store m5 (buf + 6) (value / 2 ^ 48 % 256) in
    let m7 = store m6 (buf + 7) (value / 2 ^ 56 % 256) in (m7, buf + 8)

-- On failure the pointer and the value by reference stay as they were.
unfoldable pub decode_fixed8 : Mem → ℕ → ℕ → ℕ → Decoded ℕ
decode_fixed8 mem buf end v =
    if leb (buf + 1) end
    then record { ret = true; buf = buf + 1; v = mem buf }
    else record { ret = false; buf = buf; v = v }

unfoldable pub decode_fixed16 : Mem → ℕ → ℕ → ℕ → Decoded ℕ
decode_fixed16 mem buf end v =
    if leb (buf + 2) end
    then record { ret = true; buf = buf + 2; v = bit_or (mem buf) (mem (buf + 1) * 2 ^ 8) }
    else record { ret = false; buf = buf; v = v }

-- `buf[0] | buf[1] << 8 | buf[2] << 16 | buf[3] << 24`
unfoldable pub word32 : Mem → ℕ → ℕ
word32 mem buf =
    bit_or (bit_or (bit_or (mem buf) (mem (buf + 1) * 2 ^ 8)) (mem (buf + 2) * 2 ^ 16))
      (mem (buf + 3) * 2 ^ 24)

unfoldable pub decode_fixed32 : Mem → ℕ → ℕ → ℕ → Decoded ℕ
decode_fixed32 mem buf end v =
    if leb (buf + 4) end
    then record { ret = true; buf = buf + 4; v = word32 mem buf }
    else record { ret = false; buf = buf; v = v }

-- The four low bytes as above, then `buf[4] << 32` up to `buf[7] << 56`.
unfoldable pub word64 : Mem → ℕ → ℕ
word64 mem buf =
    bit_or
      (bit_or (bit_or (bit_or (word32 mem buf) (mem (buf + 4) * 2 ^ 32)) (mem (buf + 5) * 2 ^ 40))
        (mem (buf + 6) * 2 ^ 48))
      (mem (buf + 7) * 2 ^ 56)

unfoldable pub decode_fixed64 : Mem → ℕ → ℕ → ℕ → Decoded ℕ
decode_fixed64 mem buf end v =
    if leb (buf + 8) end
    then record { ret = true; buf = buf + 8; v = word64 mem buf }
    else record { ret = false; buf = buf; v = v }

-- A floating type of `w` bits as the union with an integer sees it: values and their bit patterns.
pub record FloatFormat (w : ℕ) : Type 1 where
  pub Value : Type 0
  pub bits : Value → ℕ
  pub of_bits : ℕ → Value
  pub bits-lt : (x : Value) → bits x < 2 ^ w
  pub of_bits-bits : (x : Value) → of_bits (bits x) ≡ x

module _ (f : FloatFormat 32) where
  open f use {Value, bits, of_bits}

  unfoldable pub encode_float : Mem → ℕ → Value → Mem × ℕ
  encode_float mem buf value = encode_fixed32 mem buf (bits value)

  -- `uv` is the union before the call, which the code leaves uninitialised.
  unfoldable pub decode_float : Mem → ℕ → ℕ → ℕ → Decoded Value
  decode_float mem buf end uv =
      let d = decode_fixed32 mem buf end uv in record { ret = d.ret; buf = d.buf; v = of_bits d.v }

module _ (f : FloatFormat 64) where
  open f use {Value, bits, of_bits}

  unfoldable pub encode_double : Mem → ℕ → Value → Mem × ℕ
  encode_double mem buf value = encode_fixed64 mem buf (bits value)

  unfoldable pub decode_double : Mem → ℕ → ℕ → ℕ → Decoded Value
  decode_double mem buf end uv =
      let d = decode_fixed64 mem buf end uv in record { ret = d.ret; buf = d.buf; v = of_bits d.v }
