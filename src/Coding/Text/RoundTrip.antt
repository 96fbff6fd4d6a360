-- ===== src/Coding/Text/RoundTrip.antt =====
-- include/xfutil/coding.h, src/coding.cpp: `DecodeString` after `EncodeString`, and its bounds.
use xfutil.Base.{ℕ, ◌+◌, ◌%◌, ◌^◌, ◌≤◌, ◌<◌, ◌≡◌, refl, arith, length, true, le→ltb_false}
use xfutil.Memory.{Mem, Holds}
use xfutil.Coding.Varint.{decode_varint}
use xfutil.Coding.Varint.Encode.{varint}
use xfutil.Coding.Varint.Decode.{decode_varint-Holds}
use xfutil.Coding.Varint.Safety.{decode_varint_bounds}
use xfutil.Coding.Text.{StrView, decode_string}
use native.Mathlib.Nat.{mod-eq_of_lt}

-- A length that takes the pointer past the top of the address space wraps around below the end, and
-- `DecodeString` accepts it: the view that it returns reaches past the end.
pub decode_string_wraps :
    (mem : Mem) (buf end len : ℕ) (v0 : StrView)
    → len < 2 ^ 64
    → buf + length (varint len) ≤ end
    → end < 2 ^ 64
    → 2 ^ 64 ≤ buf + length (varint len) + len
    → Holds mem buf (varint len)
    → ((decode_string mem buf end v0).ret ≡ true)
      × (end < (decode_string mem buf end v0).v.data_ + (decode_string mem buf end v0).v.size)
unfolding decode_string
decode_string_wraps mem buf end len v0 hl room he wrap held =
    rw (decode_varint-Holds mem buf end len hl room held)
      (rw (le→ltb_false end _ below) (refl, omega arith))
  where
    below : (buf + length (varint len) + len) % 2 ^ 64 ≤ end
    below = omega arith

-- Without such a wrap the view that `DecodeString` returns lies between the pointer and the end, and
-- the pointer moves behind it.
pub decode_string_bounds :
    (mem : Mem) (buf end : ℕ) (v0 : StrView)
    → buf ≤ end
    → (decode_varint mem buf end).buf + (decode_varint mem buf end).v < 2 ^ 64
    → (decode_string mem buf end v0).ret ≡ true
    → (buf ≤ (decode_string mem buf end v0).v.data_)
      × ((decode_string mem buf end v0).v.data_ + (decode_string mem buf end v0).v.size ≤ end)
      × ((decode_string mem buf end v0).buf
          ≡ (decode_string mem buf end v0).v.data_ + (decode_string mem buf end v0).v.size)
unfolding decode_string
decode_string_bounds mem buf end v0 h fits ok = ground (
  arith,
  decode_varint_bounds mem buf end h,
  mod-eq_of_lt {n = (decode_varint mem buf end).buf + (decode_varint mem buf end).v} {m = 2 ^ 64}
      fits,
)
