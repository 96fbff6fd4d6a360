-- ===== src/Tests/Unpack.antt =====
-- src/pack.cpp and src/unpack.cpp at concrete inputs.
use xfutil.Base.{inl, ℕ, ◌^◌, ◌≡◌, arith, List, [], ◌∷◌, length, some}
use xfutil.Memory.{Mem}
use xfutil.Unpack
use xfutil.Unpack.Blocks.{unpack_all}
use xfutil.Unpack.Sequence.{packed, blocks_of, values, unpack_all-packed}

abbrev blank : Mem
blank q = 0

-- The first two values fill a block of 16 bytes, and the third one has a block of its own.
abbrev items : List (ℕ × ℕ)
items = (8192, 300) ∷ (12288, 2 ^ 63) ∷ (16384, 7) ∷ []

unpack_all-packed_example :
    unpack_all
      (packed 16 4096 blank items).0
      1
      (blocks_of (packed 16 4096 blank items).1)
      (length (values items))
      (Unpack.new 1 (blocks_of (packed 16 4096 blank items).1))
    ≡ some (values items)
unpack_all-packed_example =
    unpack_all-packed 16 4096 blank 1 items (omega arith) (omega arith)
      (omega arith, (omega arith, (omega arith, tt)))
      (
        (inl (omega arith), tt),
        (
          (inl (omega arith), (inl (omega arith), tt)),
          ((inl (omega arith), (inl (omega arith), (inl (omega arith), tt))), tt),
        ),
      )
