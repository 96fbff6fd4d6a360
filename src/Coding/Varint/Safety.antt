-- ===== src/Coding/Varint/Safety.antt =====
-- src/coding.cpp: `DecodeVarint` on any memory, well formed or not.
use xfutil.Base.{
  ℕ, zero, suc, ◌+◌, ◌*◌, ◌%◌, ◌^◌, ◌≤◌, ◌<◌, ◌≡◌, refl, arith, ltb, bit_or, bit_and, Bool-cases,
  inl, inr, ltb→lt,
}
use xfutil.Base.Bits.{bit_or-lt}
use xfutil.Memory.{Mem}
use xfutil.Coding.{Decoded}
use xfutil.Coding.Varint.{decode_varint_loop, decode_varint}

decode_varint_loop_agree :
    (rounds : ℕ) (mem mem' : Mem) (buf end v shift : ℕ)
    → ((q : ℕ) → buf ≤ q → q < end → mem q ≡ mem' q)
    → decode_varint_loop rounds mem buf end v shift ≡ decode_varint_loop rounds mem' buf end v shift
unfolding decode_varint_loop
decode_varint_loop_agree zero mem mem' buf end v shift same = refl
decode_varint_loop_agree (suc rounds) mem mem' buf end v shift same =
    elim (Bool-cases (ltb buf end)) [
      | inl room ↦ rw (same buf (omega arith) (ltb→lt _ _ room)) (
          rw (
            decode_varint_loop_agree rounds mem mem' (buf + 1) end _ (shift + 7)
              (λ q h k. same q (omega arith) k)))
      | inr full ↦ rw full (ground arith)
    ]

-- `DecodeVarint` reads nothing outside [buf, end): memories that agree there give the same result.
pub decode_varint_agree :
    (mem mem' : Mem) (buf end : ℕ)
    → ((q : ℕ) → buf ≤ q → q < end → mem q ≡ mem' q)
    → decode_varint mem buf end ≡ decode_varint mem' buf end
unfolding decode_varint
decode_varint_agree mem mem' buf end same = decode_varint_loop_agree 10 mem mem' buf end 0 0 same

abbrev InBounds : ℕ → ℕ → ℕ → Decoded ℕ → Type 0
InBounds buf end rounds d = (buf ≤ d.buf) × (d.buf ≤ end) × (d.buf ≤ buf + rounds) × (d.v < 2 ^ 64)

or_shifted-lt : (v x : ℕ) → v < 2 ^ 64 → bit_or v (x % 2 ^ 64) < 2 ^ 64
or_shifted-lt v x h = bit_or-lt 64 v (x % 2 ^ 64) h (omega arith)

decode_varint_loop_bounds :
    (rounds : ℕ) (mem : Mem) (buf end v shift : ℕ)
    → buf ≤ end
    → v < 2 ^ 64
    → InBounds buf end rounds (decode_varint_loop rounds mem buf end v shift)
unfolding decode_varint_loop
decode_varint_loop_bounds zero mem buf end v shift h hv = omega arith
decode_varint_loop_bounds (suc rounds) mem buf end v shift h hv = ground (
  arith,
  or_shifted-lt v (mem buf * 2 ^ shift) hv,
  decode_varint_loop_bounds rounds mem (buf + 1) end
      (bit_or v (bit_and (mem buf) 0x7f * 2 ^ shift % 2 ^ 64)) (shift + 7),
  or_shifted-lt v (bit_and (mem buf) 0x7f * 2 ^ shift) hv,
)

-- On any input `DecodeVarint` leaves the pointer between the old one and the end, at most ten bytes
-- on, and its value is a `uint64_t`.
pub decode_varint_bounds :
    (mem : Mem) (buf end : ℕ)
    → buf ≤ end
    → (buf ≤ (decode_varint mem buf end).buf)
      × ((decode_varint mem buf end).buf ≤ end)
      × ((decode_varint mem buf end).buf ≤ buf + 10)
      × ((decode_varint mem buf end).v < 2 ^ 64)
unfolding decode_varint
decode_varint_bounds mem buf end h = decode_varint_loop_bounds 10 mem buf end 0 0 h (omega arith)
