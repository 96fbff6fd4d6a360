-- ===== src/Tests/MemoryPool.antt =====
-- src/memory_pool.cpp at concrete inputs.
use xfutil.Base.{ℕ, ◌≤◌, ◌≡◌, ◌⊎◌, inr, refl, arith, [], ◌∷◌, ◌++◌, length, ◌%◌, ◌^◌, some}
use xfutil.BlockPool.Ownership.{count}
use xfutil.MemoryBlock
use xfutil.MemoryBlock.{MemoryBlock}
use xfutil.MemoryPool.{
  MemoryPool, init, alloc_here, alloc_new, upper_bound, find_memory_block, free, used_count,
}
use xfutil.MemoryPool.Ranges.{Has, Inside}
use xfutil.MemoryPool.Ownership.{
  IsNew, Fits, Calls, start, given, full, renew, Calls-once, Calls-found, Calls-returned,
}

abbrev no_links : ℕ → ℕ
no_links a = 0

abbrev no_block : MemoryBlock
no_block = MemoryBlock.init no_links 0 0 1

-- A pool on blocks of 72 bytes, and its cache of one element of 8 bytes at the address 1000.
abbrev new_pool : MemoryPool
new_pool = record {
  block_size = 72;
  used_cnt = 0;
  cache_num = 0;
  element_size = 0;
  cache = no_block;
  cache_end = 0;
  free_list = [];
  full_list = [];
  ends = [];
  heads = λ a. no_block;
}

cache-Fits : Fits 48 8
cache-Fits = record { one = omega arith; room = omega arith; fits = omega arith; few = omega arith }

block-Fits : Fits 72 8
block-Fits = record { one = omega arith; room = omega arith; fits = omega arith; few = omega arith }

abbrev started : MemoryPool
started = (init no_links 1000 new_pool 5 1).1

abbrev one : MemoryPool
one = (alloc_here started).0

-- The cache is used up, and a block is put in.
abbrev two : MemoryPool
two = (alloc_new no_links 2000 (alloc_here one).0).0

new_pool-IsNew : IsNew 72 new_pool
new_pool-IsNew = record {
  block_size = refl;
  used_cnt = refl;
  free_list = refl;
  full_list = refl;
  ends = refl;
}

started-Calls : Calls 1000 48 72 8 started []
started-Calls = start no_links new_pool 5 1 new_pool-IsNew refl refl (omega arith)

one-Calls : Calls 1000 48 72 8 one (1040 ∷ [])
unfolding alloc_here init MemoryBlock.alloc MemoryBlock.init
one-Calls = given started-Calls (omega arith)

two-Calls : Calls 1000 48 72 8 two (2040 ∷ 1040 ∷ [])
unfolding alloc_here alloc_new init MemoryBlock.alloc MemoryBlock.init
two-Calls = renew (full one-Calls refl) no_links 2000 (record {
  placed = omega arith;
  cache = inr (omega arith);
  blocks = λ e has. absurd (omega (arith, has));
})

Calls-once_example :
    ((x : ℕ) → count x (2040 ∷ 1040 ∷ []) ≤ 1)
    × (used_count two ≡ length {A = ℕ} (2040 ∷ 1040 ∷ []) % 2 ^ 64)
Calls-once_example = Calls-once 1000 48 72 8 two (2040 ∷ 1040 ∷ []) cache-Fits block-Fits two-Calls

Calls-found_example :
    Inside 1000 48 2040
    ⊎ ((h : ℕ) × (find_memory_block two 2040 ≡ some h)
        × Inside h 72 2040
        × Has h (two.free_list ++ two.full_list))
Calls-found_example =
    Calls-found 1000 48 72 8 two (2040 ∷ 1040 ∷ []) 2040 cache-Fits block-Fits two-Calls
      (omega arith)

-- The block's only element is freed, and the block is given back.
back : (free two 2040).1 ≡ some 2000
unfolding free find_memory_block upper_bound alloc_here alloc_new init MemoryBlock.alloc
    MemoryBlock.init MemoryBlock.free
back = refl

Calls-returned_example : ¬ Inside 2000 72 1040
Calls-returned_example =
    Calls-returned 1000 48 72 8 two [] (1040 ∷ []) 2040 2000 cache-Fits block-Fits two-Calls back
      1040 (omega arith)
