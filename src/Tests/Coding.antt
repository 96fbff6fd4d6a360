-- ===== src/Tests/Coding.antt =====
-- include/xfutil/coding.h, src/coding.cpp at concrete inputs.
use xfutil.Base.{ℕ, ◌-◌, ◌%◌, ◌≤◌, ◌<◌, ◌≡◌, ◌^◌, refl, arith, true, [], ◌∷◌}
use xfutil.Memory.{Mem, store, read, write}
use xfutil.Coding.Backward.{encode_varint_r, decode_varint_r}
use xfutil.Coding.Backward.RoundTrip.{decode-encode_varint_r}
use xfutil.Coding.Fixed.{FloatFormat}
use xfutil.Coding.ZigZag.{encode_zig_zag, decode_zig_zag, sign_fill, decode-encode_zig_zag}
use xfutil.Coding.Varint.{encode_varint, decode_varint, decode_varint_narrow}
use xfutil.Coding.Varint.Encode.{varint}
use xfutil.Coding.Varint.Safety.{decode_varint_agree}
use xfutil.Coding.Varint.RoundTrip.{
  decode-encode_varint, decode-encode_varint_narrow, encode_varint_size,
}
use mathlib.Core.HLevel.{Σ_prop_path}
use native.Mathlib.Bridge.{le_prop}
use native.Mathlib.Nat.{mod-eq_of_lt}
use xfutil.Coding.Text.{StrView}

abbrev blank : Mem
blank q = 0

-- 300 is ac 02.
varint_300 : read (encode_varint blank 100 300).0 100 2 ≡ 0xac ∷ 0x02 ∷ []
unfolding encode_varint store read
varint_300 = refl

zig_zag_minus_two : encode_zig_zag 32 0xfffffffe ≡ 3
unfolding encode_zig_zag sign_fill
zig_zag_minus_two = refl

-- A view of five bytes at 10.
abbrev hello : StrView
hello = record { data_ = 10; size = 5 }

abbrev nothing : StrView
nothing = record { data_ = 0; size = 0 }

-- A format whose values are the patterns themselves.
abbrev Pattern : Type 0
Pattern = (n : ℕ) × (n < 2 ^ 64)

mod_bound : (n : ℕ) → n % 2 ^ 64 < 2 ^ 64
mod_bound n = omega arith

of_bits_pattern : (x : Pattern) → ◌≡◌ {A = Pattern} (x.0 % 2 ^ 64, mod_bound x.0) x
of_bits_pattern x = Σ_prop_path (λ n. le_prop) (mod-eq_of_lt x.1)

five : 5 < 2 ^ 64
five = omega arith

abbrev patterns : FloatFormat 64
patterns = record {
  Value = (n : ℕ) × (n < 2 ^ 64);
  bits = λ x. x.0;
  of_bits = λ n. (n % 2 ^ 64, mod_bound n);
  bits-lt = λ x. x.1;
  of_bits-bits = λ x. of_bits_pattern x;
}

decode-encode_zig_zag_example : decode_zig_zag 32 (encode_zig_zag 32 0x80000000) ≡ 0x80000000
decode-encode_zig_zag_example = decode-encode_zig_zag 31 0x80000000 (omega arith)

decode-encode_varint_example :
    decode_varint (encode_varint blank 100 300).0 100 110
    ≡ record { ret = true; buf = (encode_varint blank 100 300).1; v = 300 }
decode-encode_varint_example =
    decode-encode_varint blank 100 110 300 (omega arith)
      (encode_varint_size blank 100 300 (omega arith)).1

decode-encode_varint_narrow_example :
    decode_varint_narrow 16 (encode_varint blank 100 300).0 100 110
    ≡ record { ret = true; buf = (encode_varint blank 100 300).1; v = 300 }
decode-encode_varint_narrow_example =
    decode-encode_varint_narrow 16 blank 100 110 300 (omega arith) (omega arith)
      (encode_varint_size blank 100 300 (omega arith)).1

encode_varint_size_example :
    (101 ≤ (encode_varint blank 100 300).1) × ((encode_varint blank 100 300).1 ≤ 110)
encode_varint_size_example = encode_varint_size blank 100 300 (omega arith)

decode_varint_agree_example : decode_varint (store blank 7 1) 100 105 ≡ decode_varint blank 100 105
unfolding store
decode_varint_agree_example =
    decode_varint_agree (store blank 7 1) blank 100 105 (λ q h k. ground arith)

-- The length 2 ^ 64 - 50 at address 100 ends at 60 after the wrap.
abbrev huge : Mem
huge = write blank 100 (varint (2 ^ 64 - 50))

backward_room : (encode_varint_r blank 8 70000).1 ≤ 100
unfolding encode_varint_r
backward_room = omega arith

decode-encode_varint_r_example :
    decode_varint_r (encode_varint_r blank 8 70000).0 ((encode_varint_r blank 8 70000).1 - 1) 100
    ≡ record { ret = true; buf = 7; v = 70000 }
decode-encode_varint_r_example =
    decode-encode_varint_r blank 8 100 70000 (omega arith) (omega arith) backward_room
