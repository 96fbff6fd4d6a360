-- ===== src/Coding/Fixed/RoundTrip.antt =====
-- include/xfutil/coding.h: what the fixed decoders read from the bytes that the encoders write.
use xfutil.Base.{ℕ, ◌+◌, ◌^◌, ◌≤◌, ◌<◌, ◌≡◌, ◌∙◌, ap, ◌⊎◌, arith, true, le→leb}
use xfutil.Memory.{Mem, Holds}
use xfutil.Memory.Laws.{write-Holds, write_outside}
use xfutil.Coding.{Decoded}
use xfutil.Coding.Fixed.{
  encode_fixed8, encode_fixed16, encode_fixed32, encode_fixed64, decode_fixed8, decode_fixed16,
  decode_fixed32, decode_fixed64, FloatFormat, encode_float, decode_float, encode_double,
  decode_double,
}
use xfutil.Coding.Fixed.Bytes.{
  le_bytes, le_value-le_bytes, encode_fixed8-write, encode_fixed16-write, encode_fixed32-write,
  encode_fixed64-write, word16-le_value, word32-le_value, word64-le_value,
}

abbrev record_at : ℕ → ℕ → Decoded ℕ
record_at p x = record { ret = true; buf = p; v = x }

-- The decoders' results agree when their values do.
decoded_at : (p : ℕ) {x y : ℕ} → x ≡ y → record_at p x ≡ record_at p y
decoded_at p e = ap (record_at p) e

module _ (mem : Mem) (buf end v v0 : ℕ) where
  -- Reading the bytes of `v`, wherever they come from.
  pub decode_fixed8-Holds :
      v < 2 ^ 8
      → buf + 1 ≤ end
      → Holds mem buf (le_bytes 1 v)
      → decode_fixed8 mem buf end v0 ≡ record { ret = true; buf = buf + 1; v = v }
  unfolding decode_fixed8
  decode_fixed8-Holds hv room h = ground arith

  pub decode_fixed16-Holds :
      v < 2 ^ 16
      → buf + 2 ≤ end
      → Holds mem buf (le_bytes 2 v)
      → decode_fixed16 mem buf end v0 ≡ record { ret = true; buf = buf + 2; v = v }
  unfolding decode_fixed16
  decode_fixed16-Holds hv room h =
      rw (le→leb _ _ room)
        (decoded_at (buf + 2) (word16-le_value mem buf _ _ (omega arith) h ∙ omega arith))

  pub decode_fixed32-Holds :
      v < 2 ^ 32
      → buf + 4 ≤ end
      → Holds mem buf (le_bytes 4 v)
      → decode_fixed32 mem buf end v0 ≡ record { ret = true; buf = buf + 4; v = v }
  unfolding decode_fixed32
  decode_fixed32-Holds hv room h = rw (le→leb _ _ room) (
      decoded_at (buf + 4) (
        word32-le_value mem buf _ _ _ _ (omega arith) (omega arith) (omega arith) h
        ∙ le_value-le_bytes 4 v hv))

  pub decode_fixed64-Holds :
      v < 2 ^ 64
      → buf + 8 ≤ end
      → Holds mem buf (le_bytes 8 v)
      → decode_fixed64 mem buf end v0 ≡ record { ret = true; buf = buf + 8; v = v }
  unfolding decode_fixed64
  decode_fixed64-Holds hv room h = rw (le→leb _ _ room) (
      decoded_at (buf + 8) (
        word64-le_value mem buf _ _ _ _ (omega arith) (omega arith) (omega arith) _ _ _ _
          (omega arith) (omega arith) (omega arith) (omega arith) h
        ∙ le_value-le_bytes 8 v hv))

module _ (mem : Mem) (buf end v v0 : ℕ) where
  pub decode-encode_fixed8 :
      v < 2 ^ 8
      → buf + 1 ≤ end
      → decode_fixed8 (encode_fixed8 mem buf v).0 buf end v0
        ≡ record { ret = true; buf = (encode_fixed8 mem buf v).1; v = v }
  decode-encode_fixed8 hv room =
      rw encode_fixed8-write
        (decode_fixed8-Holds _ buf end v v0 hv room (write-Holds (le_bytes 1 v) mem buf))

  pub decode-encode_fixed16 :
      v < 2 ^ 16
      → buf + 2 ≤ end
      → decode_fixed16 (encode_fixed16 mem buf v).0 buf end v0
        ≡ record { ret = true; buf = (encode_fixed16 mem buf v).1; v = v }
  decode-encode_fixed16 hv room =
      rw encode_fixed16-write
        (decode_fixed16-Holds _ buf end v v0 hv room (write-Holds (le_bytes 2 v) mem buf))

  -- What `EncodeFixed` wrote of a `uint32_t`, `DecodeFixed` reads back up to the encoder's pointer.
  pub decode-encode_fixed32 :
      v < 2 ^ 32
      → buf + 4 ≤ end
      → decode_fixed32 (encode_fixed32 mem buf v).0 buf end v0
        ≡ record { ret = true; buf = (encode_fixed32 mem buf v).1; v = v }
  decode-encode_fixed32 hv room =
      rw encode_fixed32-write
        (decode_fixed32-Holds _ buf end v v0 hv room (write-Holds (le_bytes 4 v) mem buf))

  -- What `EncodeFixed` wrote of a `uint64_t`, `DecodeFixed` reads back up to the encoder's pointer.
  pub decode-encode_fixed64 :
      v < 2 ^ 64
      → buf + 8 ≤ end
      → decode_fixed64 (encode_fixed64 mem buf v).0 buf end v0
        ≡ record { ret = true; buf = (encode_fixed64 mem buf v).1; v = v }
  decode-encode_fixed64 hv room =
      rw encode_fixed64-write
        (decode_fixed64-Holds _ buf end v v0 hv room (write-Holds (le_bytes 8 v) mem buf))

-- `EncodeFixed` of a `uint64_t` changes no byte outside the eight from the pointer on.
pub encode_fixed64_outside :
    (mem : Mem) (buf v q : ℕ) → (q < buf) ⊎ (buf + 8 ≤ q) → (encode_fixed64 mem buf v).0 q ≡ mem q
encode_fixed64_outside mem buf v q h =
    rw encode_fixed64-write (write_outside (le_bytes 8 v) mem buf q h)

-- A `float` that `EncodeFloat` wrote comes back from `DecodeFloat`, whatever the union held.
pub decode-encode_float :
    (f : FloatFormat 32) (mem : Mem) (buf end uv : ℕ) (x : f.Value)
    → buf + 4 ≤ end
    → decode_float f (encode_float f mem buf x).0 buf end uv
      ≡ record { ret = true; buf = (encode_float f mem buf x).1; v = x }
unfolding encode_float decode_float
decode-encode_float f mem buf end uv x room =
    rw (decode-encode_fixed32 mem buf end (f.bits x) uv (f.bits-lt x) room) (rw (f.of_bits-bits x))

-- A `double` that `EncodeDouble` wrote comes back from `DecodeDouble`, whatever the union held.
pub decode-encode_double :
    (f : FloatFormat 64) (mem : Mem) (buf end uv : ℕ) (x : f.Value)
    → buf + 8 ≤ end
    → decode_double f (encode_double f mem buf x).0 buf end uv
      ≡ record { ret = true; buf = (encode_double f mem buf x).1; v = x }
unfolding encode_double decode_double
decode-encode_double f mem buf end uv x room =
    rw (decode-encode_fixed64 mem buf end (f.bits x) uv (f.bits-lt x) room) (rw (f.of_bits-bits x))
