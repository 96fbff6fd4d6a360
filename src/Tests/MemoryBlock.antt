-- ===== src/Tests/MemoryBlock.antt =====
-- src/memory_block.cpp at concrete inputs.
use xfutil.Base.{ℕ, ◌≡◌, refl}
use xfutil.MemoryBlock.{MemoryBlock, init, alloc}

abbrev no_links : ℕ → ℕ
no_links a = 0

-- Three elements of 16 bytes, 8 bytes behind the head.
abbrev block : MemoryBlock
block = init no_links 4096 96 16

abbrev two : MemoryBlock
two = (alloc (alloc block).0).0

-- A block with room for 65,536 elements has none, for their number is kept in sixteen bits.
many_none : (alloc (init no_links 4096 524328 8)).1 ≡ 0
unfolding alloc init
many_none = refl
