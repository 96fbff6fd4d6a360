-- ===== src/Buffer/Release.antt =====
-- src/buffer.cpp: `BlockBuffer::Free` gives each block back to where `Alloc` got it.
use xfutil.Base.{
  ℕ, ◌+◌, ◌*◌, ◌/◌, ◌%◌, ◌^◌, ◌<◌, ◌≡◌, ◌≢◌, refl, arith, Bool-cases, inl, inr, leb, ==_refl, ==_ne,
  if◌then◌else◌, List, [], ◌∷◌,
}
use native.Mathlib.Nat.{mod-eq_of_lt}
use xfutil.Pack.{Block, align_up, alloc_block}
use xfutil.Buffer.{free}

-- The blocks of calls of `Alloc`, each with the address got and the size asked for.
abbrev pub alloc_all : ℕ → List (ℕ × ℕ) → List Block
alloc_all block_size [] = []
alloc_all block_size (r ∷ rs) = alloc_block block_size r.0 r.1 ∷ alloc_all block_size rs

-- The addresses that `Alloc` got from the pool, and those that it got from the allocator.
abbrev pub origins : ℕ → List (ℕ × ℕ) → List ℕ × List ℕ
origins block_size [] = ([], [])
origins block_size (r ∷ rs) =
    let (pooled, own) = origins block_size rs in
    if leb r.1 block_size then (r.0 ∷ pooled, own) else (pooled, r.0 ∷ own)

-- No size is so close to 4 GiB that rounding it up to a page wraps.
abbrev pub Small : List (ℕ × ℕ) → Type 0
Small [] = Unit
Small (r ∷ rs) = (r.1 + 4095 < 2 ^ 32) × Small rs

-- `Free` after any calls of `Alloc` gives to the pool the blocks that came from it, and to the
-- allocator the others, if no size is so large that rounding it up to a page wraps.
pub free-alloc_all :
    (block_size : ℕ) (requests : List (ℕ × ℕ))
    → Small requests
    → free block_size (alloc_all block_size requests) ≡ origins block_size requests
unfolding free alloc_block align_up
free-alloc_all n [] h = refl
free-alloc_all n (r ∷ rs) (h, hs) = elim (Bool-cases (leb r.1 n)) [
  | inl fits ↦ rw (free-alloc_all n rs hs, fits, ==_refl n) refl
  | inr long ↦
      let wrap : (r.1 + 4095) % 2 ^ 32 ≡ r.1 + 4095 = mod-eq_of_lt h in
      let more : n < r.1 = ground arith in
      let other : (r.1 + 4095) / 4096 * 4096 ≢ n = omega arith in
      rw (free-alloc_all n rs hs, long, wrap, ==_ne _ _ other) refl
]
