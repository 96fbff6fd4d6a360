-- ===== src/Tests/Hash.antt =====
-- src/hash.cpp at concrete inputs.
use xfutil.Base.{◌≡◌, ◌*◌, ◌%◌, ◌^◌, arith, [], ◌∷◌}
use xfutil.Memory.{Mem, write}
use xfutil.Memory.Laws.{write-Holds}
use xfutil.Hash.{hash32}
use xfutil.Hash.Bytes.{hash_bytes, hash32-hash_bytes}

abbrev blank : Mem
blank q = 0

hash32-hash_bytes_example :
    hash32 0 (write blank 8 (1 ∷ 2 ∷ 3 ∷ 4 ∷ 5 ∷ 6 ∷ [])) 8 6 4118054813
    ≡ hash_bytes 4118054813 (4118054813 * 6 % 2 ^ 64 % 2 ^ 32) (1 ∷ 2 ∷ 3 ∷ 4 ∷ 5 ∷ 6 ∷ [])
hash32-hash_bytes_example =
    hash32-hash_bytes (write blank 8 (1 ∷ 2 ∷ 3 ∷ 4 ∷ 5 ∷ 6 ∷ [])) 8 0 4118054813
      (1 ∷ 2 ∷ 3 ∷ 4 ∷ 5 ∷ 6 ∷ []) (omega arith) (write-Holds (1 ∷ 2 ∷ 3 ∷ 4 ∷ 5 ∷ 6 ∷ []) blank 8)
