-- ===== src/Tests/Str.antt =====
-- include/xfutil/strutil.h, src/strutil.cpp at concrete inputs.
use xfutil.Base.{◌≤◌, ◌≡◌, refl, arith, [], ◌∷◌, All}
use xfutil.Memory.{Mem, write}
use xfutil.Memory.Laws.{read-write_self}
use xfutil.Coding.Text.{StrView}
use xfutil.Str.{bytes, compare_views}
use xfutil.Str.Order.{lex, compare_views-lex}

-- "  ab " at address 16, "ab" at 32, and "é" at 48.
abbrev texts : Mem
texts =
    write (write (write (λ q. 0) 16 (0x20 ∷ 0x20 ∷ 0x61 ∷ 0x62 ∷ 0x20 ∷ [])) 32 (0x61 ∷ 0x62 ∷ []))
      48 (0xC3 ∷ 0xA9 ∷ [])

abbrev padded : StrView
padded = record { data_ = 16; size = 5 }

abbrev ab : StrView
ab = record { data_ = 32; size = 2 }

abbrev accented : StrView
accented = record { data_ = 48; size = 2 }

compare_views-lex_example :
    compare_views texts padded ab ≡ lex (bytes texts padded) (bytes texts ab)
compare_views-lex_example = compare_views-lex texts padded ab

accented-bytes : bytes texts accented ≡ 0xC3 ∷ 0xA9 ∷ []
accented-bytes = read-write_self (0xC3 ∷ 0xA9 ∷ []) _ 48 2 refl

accented-high : All (λ c. 0x80 ≤ c) (bytes texts accented)
accented-high = rw accented-bytes (omega arith, (omega arith, tt))
