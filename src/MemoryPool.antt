-- ===== src/MemoryPool.antt =====
-- include/xfutil/memory_pool.h, src/memory_pool.cpp: the class `MemoryPool`. The mutex makes each part
-- of a method that holds it one step. A list of list.h is the sequence of nodes that it shows
-- (Ring/Shape), a `std::set` a list, and `heads` gives the block head at an address.
pub mod Valid
pub mod Block
pub mod Alloc
pub mod Renew
pub mod Release
pub mod Ownership
pub mod Find
pub mod Ranges
use xfutil.Base.{
  ℕ, zero, suc, ◌+◌, ◌-◌, ◌*◌, ◌/◌, ◌%◌, ◌^◌, Bool, true, false, not, ◌&&◌, ltb, leb, ◌==◌,
  if◌then◌else◌, List, [], ◌∷◌, ◌++◌, Option, none, some,
}
use xfutil.MemoryBlock
use xfutil.MemoryBlock.{MemoryBlock, Freed, other, was_full, unused, head_size}

pub record MemoryPool : Type 0 where
  -- `m_block_pool.BlockSize()`
  pub block_size : ℕ
  pub used_cnt : ℕ
  pub cache_num : ℕ
  pub element_size : ℕ
  pub cache : MemoryBlock
  pub cache_end : ℕ
  pub free_list : List ℕ
  pub full_list : List ℕ
  pub ends : List ℕ
  pub heads : ℕ → MemoryBlock

-- `ALIGN_UP(size, sizeof(void*))` in 32 bits.
abbrev pub align_up : ℕ → ℕ
align_up size = (size + 7) / 8 * 8 % 2 ^ 32

-- `Init(element_size, cache_num)` of a new pool, with the address that `xmalloc` gives.
unfoldable pub init : (ℕ → ℕ) → ℕ → MemoryPool → ℕ → ℕ → Bool × MemoryPool
unfolding MemoryBlock.init
init links address pool element_size cache_num =
    let size = align_up element_size in
    let total_size = (cache_num * size + head_size) % 2 ^ 64 in
    let sized = record pool { cache_num = cache_num; element_size = size } in
    if address == 0 then (false, sized) else (
      true,
      record sized {
        cache_end = address + total_size;
        cache = MemoryBlock.init links address (total_size % 2 ^ 32) size;
      },
    )

-- `ListDelete(node)`: the node goes from the list that has it.
abbrev pub without : ℕ → List ℕ → List ℕ
without h [] = []
without h (x ∷ xs) = let rest = without h xs in if x == h then rest else x ∷ rest

abbrev pub set_head : MemoryPool → ℕ → MemoryBlock → ℕ → MemoryBlock
set_head pool h b a = if a == h then b else pool.heads a

abbrev pub count_up : ℕ → ℕ
count_up n = (n + 1) % 2 ^ 64

abbrev pub count_down : ℕ → ℕ
count_down n = (n + 2 ^ 64 - 1) % 2 ^ 64

-- The first part of `Alloc`, from the head of the free list on; 0 where a new block is needed.
abbrev pub alloc_listed : MemoryPool → List ℕ → MemoryPool × ℕ
alloc_listed pool [] = (pool, 0)
alloc_listed pool (h ∷ rest) =
    let r = MemoryBlock.alloc (pool.heads h) in
    if not (r.1 == 0)
    then (record pool { heads = set_head pool h r.0; used_cnt = count_up pool.used_cnt }, r.1)
    else (
      record pool {
        heads = set_head pool h r.0;
        free_list = without h pool.free_list;
        full_list = without h pool.full_list ++ h ∷ [];
      },
      0,
    )

-- The first part of `Alloc`: the cache, and then the free list.
unfoldable pub alloc_here : MemoryPool → MemoryPool × ℕ
unfolding MemoryBlock.alloc
alloc_here pool =
    let r = MemoryBlock.alloc pool.cache in
    if not (r.1 == 0)
    then (record pool { cache = r.0; used_cnt = count_up pool.used_cnt }, r.1)
    else alloc_listed (record pool { cache = r.0 }) pool.free_list

-- The second part of `Alloc`, with the address of the block that the block pool gives, which is not
-- null: `AddMemoryBlock` included.
unfoldable pub alloc_new : (ℕ → ℕ) → ℕ → MemoryPool → MemoryPool × ℕ
unfolding MemoryBlock.init MemoryBlock.alloc
alloc_new links h pool =
    let r = MemoryBlock.alloc (MemoryBlock.init links h pool.block_size pool.element_size) in
    (
      record pool {
        heads = set_head pool h r.0;
        ends = (h + pool.block_size) ∷ without (h + pool.block_size) pool.ends;
        free_list = h ∷ pool.free_list;
        used_cnt = count_up pool.used_cnt;
      },
      r.1,
    )

-- `upper_bound(ptr)`: the least of the ends above the pointer.
abbrev pub least : ℕ → Option ℕ → Option ℕ
least e none = some e
least e (some r) = some (if ltb r e then r else e)

unfoldable pub upper_bound : ℕ → List ℕ → Option ℕ
upper_bound ptr [] = none
upper_bound ptr (e ∷ es) = let rest = upper_bound ptr es in if ltb ptr e then least e rest else rest

abbrev pub block_at : ℕ → Option ℕ → Option ℕ
block_at block_size none = none
block_at block_size (some e) = some (e - block_size)

-- `FindMemoryBlock(ptr)`; `none` for null.
unfoldable pub find_memory_block : MemoryPool → ℕ → Option ℕ
unfolding upper_bound
find_memory_block pool ptr = block_at pool.block_size (upper_bound ptr pool.ends)

-- The end of `Free`, by what `MemoryFree` returns: the pool, and the block that goes back to the block
-- pool (`RemoveMemoryBlock` included).
abbrev pub after_free : MemoryPool → ℕ → Freed → MemoryPool × Option ℕ
after_free pool h other = (pool, none)
after_free pool h was_full = (
  record pool {
    free_list = without h pool.free_list ++ h ∷ [];
    full_list = without h pool.full_list;
  },
  none,
)
after_free pool h unused = (
  record pool {
    free_list = without h pool.free_list;
    full_list = without h pool.full_list;
    ends = without (h + pool.block_size) pool.ends;
  },
  some h,
)

abbrev pub free_found : MemoryPool → ℕ → Option ℕ → MemoryPool × Option ℕ
free_found pool element none = (pool, none)
free_found pool element (some h) =
    let r = MemoryBlock.free (pool.heads h) element in
    after_free (record pool { heads = set_head pool h r.0; used_cnt = count_down pool.used_cnt }) h
      r.1

-- `Free(element)`
unfoldable pub free : MemoryPool → ℕ → MemoryPool × Option ℕ
unfolding MemoryBlock.free find_memory_block
free pool element =
    if ltb element pool.cache_end && leb pool.cache.address element
    then (
      record pool {
        cache = (MemoryBlock.free pool.cache element).0;
        used_cnt = count_down pool.used_cnt;
      },
      none,
    )
    else free_found pool element (find_memory_block pool element)

-- `MaxUsedSize()` and `UsedCount()`; `length` is the size of the set.
unfoldable pub used_count : MemoryPool → ℕ
used_count pool = pool.used_cnt
