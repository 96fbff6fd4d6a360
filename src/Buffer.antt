-- ===== src/Buffer.antt =====
-- include/xfutil/buffer.h, src/buffer.cpp: the class `WriteBuffer`, and `BlockBuffer::Free`. The
-- address that the pool or the allocator gives for a new block is an argument.
pub mod Regions
pub mod Release
use xfutil.Base.{
  ℕ, ◌+◌, ◌-◌, ◌/◌, ◌%◌, ◌^◌, Bool, true, false, ltb, leb, ◌==◌, if◌then◌else◌, List, [], ◌∷◌, ◌++◌,
  Option, none, some,
}
use xfutil.Pack.{Block}

-- `has_pool`: whether `m_block_pool` is not null.
pub record WriteBuffer : Type 0 where
  pub has_pool : Bool
  pub block_size : ℕ
  pub ptr : ℕ
  pub size : ℕ
  pub usage : ℕ
  pub blocks : List ℕ
  pub bufs : List ℕ

-- The two constructors.
unfoldable pub new : Bool → ℕ → WriteBuffer
new has_pool block_size = record {
  has_pool = has_pool;
  block_size = block_size;
  ptr = 0;
  size = 0;
  usage = 0;
  blocks = [];
  bufs = [];
}

-- `Clear`, with the addresses that it gives back to the pool, and to the allocator.
unfoldable pub clear : WriteBuffer → WriteBuffer × List ℕ × List ℕ
clear wb = (record wb { ptr = 0; size = 0; usage = 0; blocks = []; bufs = [] }, wb.blocks, wb.bufs)

-- `m_ptr += size; m_size -= size;`, with the pointer before.
unfoldable pub take_room : WriteBuffer → ℕ → WriteBuffer × ℕ
take_room wb size = (record wb { ptr = wb.ptr + size; size = wb.size - size }, wb.ptr)

-- `LargeWrite(size)`
unfoldable pub large_write : WriteBuffer → ℕ → ℕ → WriteBuffer × ℕ
unfolding take_room
large_write wb fresh size =
    let own = record wb { usage = (wb.usage + size) % 2 ^ 64; bufs = wb.bufs ++ fresh ∷ [] } in
    let got =
      if wb.has_pool
      then record wb { ptr = fresh; blocks = wb.blocks ++ fresh ∷ [] }
      else record wb { ptr = fresh; bufs = wb.bufs ++ fresh ∷ [] } in
    let block = record got {
      usage = (got.usage + got.block_size) % 2 ^ 64;
      size = got.block_size;
    } in
    if ltb (wb.block_size / 2) size then (own, fresh) else take_room block size

-- `Write(size)`
unfoldable pub write : WriteBuffer → ℕ → ℕ → WriteBuffer × ℕ
unfolding take_room large_write
write wb fresh size = if leb size wb.size then take_room wb size else large_write wb fresh size

-- How many bytes `Write(size)` gets from the pool or the allocator, if it asks for any.
unfoldable pub requested : WriteBuffer → ℕ → Option ℕ
requested wb size =
    let block = if wb.has_pool then wb.block_size else size in
    if leb size wb.size then none else some (if ltb (wb.block_size / 2) size then size else block)

-- `BlockBuffer::Free`: the addresses that go to the pool, and those that go to `xfree`.
unfoldable pub free : ℕ → List Block → List ℕ × List ℕ
free block_size [] = ([], [])
free block_size (b ∷ bs) =
    let (pooled, freed) = free block_size bs in
    if b.capacity == block_size then (b.buf ∷ pooled, freed) else (pooled, b.buf ∷ freed)
