-- ===== src/BlockPool.antt =====
-- include/xfutil/block_pool.h, src/block_pool.cpp: the class `BlockPool`. The address that the
-- allocator gives is an argument, 0 for null. The spin lock makes each method one step on the state.
pub mod Ownership
use xfutil.Base.{
  ℕ, zero, suc, ◌+◌, ◌*◌, ◌%◌, Bool, true, false, not, ◌&&◌, ◌||◌, ltb, leb, ◌==◌, if◌then◌else◌,
  List, [], ◌∷◌, ◌++◌, Option, none, some,
}

pub record BlockPool : Type 0 where
  pub block_size : ℕ
  pub cache_start : ℕ
  pub cache_end : ℕ
  pub free_blocks : List ℕ

unfoldable pub new : BlockPool
new = record { block_size = 0; cache_start = 0; cache_end = 0; free_blocks = [] }

-- The addresses that the loop of `Init` pushes.
unfoldable pub cut : ℕ → ℕ → ℕ → List ℕ
cut zero block_size buf = []
cut (suc n) block_size buf = buf ∷ cut n block_size (buf + block_size)

-- `Init(block_size, cache_num)`, with the address that `xmalloc` gives.
unfoldable pub init : BlockPool → ℕ → ℕ → ℕ → Bool × BlockPool
unfolding cut
init pool block_size cache_num buf =
    let sized = record pool { block_size = block_size } in
    let ready = record sized {
      cache_start = buf;
      cache_end = buf + block_size * cache_num;
      free_blocks = pool.free_blocks ++ cut cache_num block_size buf;
    } in
    if ltb block_size 4096 || not (block_size % 4096 == 0)
    then (false, pool)
    else if not (pool.cache_start == 0)
    then (false, pool)
    else if buf == 0
    then (false, sized)
    else (true, ready)

-- `Alloc()`: from the cache, or else the address that `xmalloc` gives.
unfoldable pub alloc : BlockPool → ℕ → BlockPool × ℕ
alloc pool fresh = elim pool.free_blocks [
  | [] ↦ (pool, fresh)
  | buf ∷ rest ↦ (record pool { free_blocks = rest }, buf)
]

-- `Free(block)`, with the address that goes to `xfree`, if it does.
unfoldable pub free : BlockPool → ℕ → BlockPool × Option ℕ
free pool block =
    if leb pool.cache_start block && ltb block pool.cache_end
    then (record pool { free_blocks = block ∷ pool.free_blocks }, none)
    else (pool, some block)
