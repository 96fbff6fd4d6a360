-- ===== src/Tests/OwnedString.antt =====
-- src/strutil.cpp and include/xfutil/strutil.h at concrete inputs: the class `String`, and `StrCpy`.
use xfutil.Base.{ℕ, ◌≡◌, ◌⊎◌, inl, inr, arith, false, [], ◌∷◌, ◌++◌}
use xfutil.Memory.{Mem, store, Holds}
use xfutil.OwnedString.{new, append, str_cpy}
use xfutil.OwnedString.Contents.{new-IsValid, Appended, append-contents}
use xfutil.OwnedString.Copy.{text, str_cpy-text}

abbrev no_bytes : Mem
no_bytes a = 0

-- "ab" at the address 10, and a zero behind it.
abbrev bytes : Mem
bytes = store (store no_bytes 10 97) 11 98

-- The address that `malloc` gives.
abbrev fresh : ℕ
fresh = 100

append-contents_example :
    ((fresh ≡ 0) × (append bytes new 10 2 fresh ≡ record { ret = false; mem = bytes; str = new }))
    ⊎ Appended bytes new 10 2 (append bytes new 10 2 fresh)
unfolding new
append-contents_example =
    append-contents bytes new 10 2 fresh new-IsValid (omega arith) (inr (omega arith))
      (inl (omega arith))

str_cpy-text_example :
    Holds (str_cpy bytes 20 4 10) 20 (text bytes 10 3 ++ 0 ∷ [])
    × (str_cpy bytes 20 4 10 30 ≡ bytes 30)
str_cpy-text_example = str_cpy-text bytes 20 3 10 30 (inr (omega arith)) (inr (omega arith))
