-- ===== src/Memory.antt =====
-- The flat memory that the C++ code's `byte_t*` pointers point into: a byte for each address.
-- A pointer is an address; the code's pointer arithmetic is arithmetic on it.
pub mod Laws
use xfutil.Base.{ℕ, zero, suc, ◌+◌, ◌≡◌, ◌==◌, if◌then◌else◌, List, [], ◌∷◌}

abbrev pub Mem : Type 0
Mem = ℕ → ℕ

-- `*p = b`
unfoldable pub store : Mem → ℕ → ℕ → Mem
store mem p b q = if q == p then b else mem q

-- `memcpy(p, bytes, size)`
unfoldable pub write : Mem → ℕ → List ℕ → Mem
write mem p [] = mem
write mem p (b ∷ bs) = write (store mem p b) (suc p) bs

-- The `n` bytes from address `p` on.
unfoldable pub read : Mem → ℕ → ℕ → List ℕ
read mem p zero = []
read mem p (suc n) = mem p ∷ read mem (suc p) n

-- The memory holds the bytes from address `p` on.
abbrev pub Holds : Mem → ℕ → List ℕ → Type 0
Holds mem p [] = Unit
Holds mem p (b ∷ bs) = (mem p ≡ b) × Holds mem (suc p) bs
