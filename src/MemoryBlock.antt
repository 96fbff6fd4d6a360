-- ===== src/MemoryBlock.antt =====
-- src/memory_block.h, src/memory_block.cpp: a block that is cut into elements of one size. Its head is a
-- record with the block's address, and `links` gives the pointer stored at the start of an element.
-- The head takes 40 bytes, as on a machine with 64-bit pointers.
pub mod Valid
pub mod Alloc
pub mod Free
pub mod Ownership
use xfutil.Base.{
  ℕ, zero, suc, ◌+◌, ◌-◌, ◌*◌, ◌/◌, ◌%◌, ◌^◌, Bool, true, false, not, ◌||◌, ltb, leb, ◌==◌,
  if◌then◌else◌,
}

pub record MemoryBlock : Type 0 where
  pub address : ℕ
  pub block_size : ℕ
  pub element_size : ℕ
  pub max_element_num : ℕ
  pub element_used_cnt : ℕ
  pub next_element_offset : ℕ
  pub next_element_ptr : ℕ
  pub links : ℕ → ℕ

abbrev pub head_size : ℕ
head_size = 40

-- `MemoryBlockInit(block, block_size, element_size)`
unfoldable pub init : (ℕ → ℕ) → ℕ → ℕ → ℕ → MemoryBlock
init links address block_size element_size =
    let num = (block_size + 2 ^ 64 - head_size) % 2 ^ 64 / element_size % 2 ^ 16 in
    record {
      address = address;
      block_size = block_size;
      element_size = element_size;
      max_element_num = num;
      element_used_cnt = 0;
      next_element_offset = (block_size + 2 ^ 32 - num * element_size % 2 ^ 32) % 2 ^ 32;
      next_element_ptr = 0;
      links = links;
    }

-- `MemoryAlloc(block)`: the free elements first, then the part that was never used; 0 for null.
unfoldable pub alloc : MemoryBlock → MemoryBlock × ℕ
alloc b =
    if not (b.next_element_ptr == 0)
    then (
      record b {
        next_element_ptr = b.links b.next_element_ptr;
        element_used_cnt = (b.element_used_cnt + 1) % 2 ^ 16;
      },
      b.next_element_ptr,
    )
    else if ltb b.next_element_offset b.block_size
    then (
      record b {
        next_element_offset = (b.next_element_offset + b.element_size) % 2 ^ 32;
        element_used_cnt = (b.element_used_cnt + 1) % 2 ^ 16;
      },
      b.address + b.next_element_offset,
    )
    else (b, 0)

-- What `MemoryFree` returns: -1, 0 when the block was full, 1 when no element is used any more.
pub data Freed : Type 0 where
  other : Freed
  was_full : Freed
  unused : Freed

-- `MemoryFree(block, element)`
unfoldable pub free : MemoryBlock → ℕ → MemoryBlock × Freed
free b element =
    let used = (b.element_used_cnt + 2 ^ 16 - 1) % 2 ^ 16 in
    let put_back = record b {
      links = λ a. if a == element then b.next_element_ptr else b.links a;
      next_element_ptr = element;
      element_used_cnt = used;
    } in
    if ltb element b.address || leb (b.address + b.block_size) element
    then (b, other)
    else if used == 0
    then (put_back, unused)
    else if used + 1 == b.max_element_num
    then (put_back, was_full)
    else (put_back, other)

-- `MemoryUsedSize(block)`
unfoldable pub used_size : MemoryBlock → ℕ
used_size b = b.element_used_cnt * b.element_size % 2 ^ 32
