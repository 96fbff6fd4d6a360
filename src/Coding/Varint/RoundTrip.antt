-- ===== src/Coding/Varint/RoundTrip.antt =====
-- src/coding.cpp, include/xfutil/coding.h: `DecodeVarint` after `EncodeVarint`, at each overload, and
-- on an encoding that is cut short.
use xfutil.Base.{ℕ, suc, ◌+◌, ◌^◌, ◌≤◌, ◌<◌, ◌≡◌, ap, ◌∙◌, arith, length, true, subst}
use xfutil.Memory.{Mem, write}
use xfutil.Memory.Laws.{write-Holds}
use xfutil.Coding.ZigZag.{
  encode_zig_zag, decode_zig_zag, decode-encode_zig_zag, encode_zig_zag-signed,
}
use xfutil.Coding.Varint.{
  encode_varint, decode_varint, encode_varint_signed, decode_varint_narrow, decode_varint_signed,
}
use xfutil.Coding.Varint.Encode.{varint, encode_varint-write, length-groups}
use xfutil.Coding.Varint.Decode.{decoded, decode_varint-Holds}
use native.Mathlib.Nat.{mod-eq_of_lt}

-- What `EncodeVarint` wrote of a `uint64_t`, `DecodeVarint` reads back, and stops where the encoder did.
pub decode-encode_varint :
    (mem : Mem) (buf end v : ℕ)
    → v < 2 ^ 64
    → (encode_varint mem buf v).1 ≤ end
    → decode_varint (encode_varint mem buf v).0 buf end
      ≡ record { ret = true; buf = (encode_varint mem buf v).1; v = v }
decode-encode_varint mem buf end v hv room = rw e (
    decode_varint-Holds (write mem buf (varint v)) buf end v hv
      (subst (λ (p : Mem × ℕ). p.1 ≤ end) e room) (write-Holds (varint v) mem buf))
  where
    e : encode_varint mem buf v ≡ (write mem buf (varint v), buf + length (varint v))
    e = encode_varint-write mem buf v hv

-- The 16- and 32-bit overloads give back a value of their type.
pub decode-encode_varint_narrow :
    (w : ℕ) (mem : Mem) (buf end v : ℕ)
    → v < 2 ^ w
    → v < 2 ^ 64
    → (encode_varint mem buf v).1 ≤ end
    → decode_varint_narrow w (encode_varint mem buf v).0 buf end
      ≡ record { ret = true; buf = (encode_varint mem buf v).1; v = v }
unfolding decode_varint_narrow
decode-encode_varint_narrow w mem buf end v hv hv64 room =
    rw (decode-encode_varint mem buf end v hv64 room)
      (ap (decoded true (encode_varint mem buf v).1) (mod-eq_of_lt hv))

-- A signed value of `k` + 1 bits comes back through zigzag and varint.
pub decode-encode_varint_signed :
    (k : ℕ) (mem : Mem) (buf end v : ℕ)
    → v < 2 ^ suc k
    → 2 ^ suc k ≤ 2 ^ 64
    → (encode_varint_signed (suc k) mem buf v).1 ≤ end
    → decode_varint_signed (suc k) (encode_varint_signed (suc k) mem buf v).0 buf end
      ≡ record { ret = true; buf = (encode_varint_signed (suc k) mem buf v).1; v = v }
unfolding decode_varint_signed encode_varint_signed
decode-encode_varint_signed k mem buf end v hv hk room =
    rw (decode-encode_varint mem buf end u (omega (arith, hu)) room) (
      ap (decoded true (encode_varint mem buf u).1)
        (ap (decode_zig_zag (suc k)) (mod-eq_of_lt hu) ∙ decode-encode_zig_zag k v hv))
  where
    u : ℕ
    u = encode_zig_zag (suc k) v

    hu : u < 2 ^ suc k
    hu = (encode_zig_zag-signed k v hv).1

-- `EncodeVarint` writes at least one byte and at most ten (`MAX_V64_SIZE`).
pub encode_varint_size :
    (mem : Mem) (buf v : ℕ)
    → v < 2 ^ 64
    → (buf + 1 ≤ (encode_varint mem buf v).1) × ((encode_varint mem buf v).1 ≤ buf + 10)
encode_varint_size mem buf v hv =
    rw (encode_varint-write mem buf v hv) (omega (arith, length-groups 9 v))
