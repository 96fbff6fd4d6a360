-- ===== src/Coding/Text.antt =====
-- include/xfutil/coding.h: `EncodeString`; src/coding.cpp: `DecodeString`; include/xfutil/strutil.h:
-- the fields of `StrView`.
pub mod RoundTrip
use xfutil.Base.{ℕ, ◌+◌, ◌%◌, ◌^◌, Bool, true, false, ltb, if◌then◌else◌}
use xfutil.Memory.{Mem, write, read}
use xfutil.Coding.{Decoded}
use xfutil.Coding.Varint.{encode_varint, decode_varint}

-- A view: the address of its first byte, and its size.
pub record StrView : Type 0 where
  pub data_ : ℕ
  pub size : ℕ

-- The length as a varint, then the bytes.
unfoldable pub encode_string : Mem → ℕ → StrView → Mem × ℕ
encode_string mem buf str =
    let (m, p) = encode_varint mem buf str.size in
    (write m p (read m str.data_ str.size), p + str.size)

-- `buf + len` wraps as a 64-bit address does.
unfoldable pub decode_string : Mem → ℕ → ℕ → StrView → Decoded StrView
decode_string mem buf end v =
    let d = decode_varint mem buf end in
    let next = (d.buf + d.v) % 2 ^ 64 in
    if d.ret
    then (if ltb end next
        then record { ret = false; buf = d.buf; v = v }
        else record { ret = true; buf = next; v = record { data_ = d.buf; size = d.v } })
    else record { ret = false; buf = d.buf; v = v }
