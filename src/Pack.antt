-- ===== src/Pack.antt =====
-- include/xfutil/pack.h, src/pack.cpp: the class `Packer`; include/xfutil/buffer.h, src/buffer.cpp:
-- `Block` and `BlockBuffer::Alloc`. Where a new block lies is the allocator's choice, so its address is
-- an argument, and so is the pool's block size.
pub mod Room
pub mod Blocks
pub mod Sequence
use xfutil.Base.{
  ℕ, ◌+◌, ◌-◌, ◌*◌, ◌/◌, ◌%◌, ◌^◌, Bool, true, false, ltb, leb, if◌then◌else◌, List, [], ◌∷◌, ◌++◌,
}
use xfutil.Memory.{Mem}
use xfutil.Coding.Fixed.{encode_fixed8, encode_fixed16, encode_fixed32, encode_fixed64}
use xfutil.Coding.Varint.{encode_varint}
use xfutil.Coding.ZigZag.{encode_zig_zag}
use xfutil.Coding.Text.{StrView, encode_string}

pub record Block : Type 0 where
  pub buf : ℕ
  pub capacity : ℕ
  pub size : ℕ

-- `ALIGN_UP(size, 4096)` of a `uint32_t`.
unfoldable pub align_up : ℕ → ℕ
align_up size = (size + 4095) % 2 ^ 32 / 4096 * 4096

-- `Alloc(size)`: the block that it appends.
unfoldable pub alloc_block : ℕ → ℕ → ℕ → Block
unfolding align_up
alloc_block block_size fresh size =
    if leb size block_size
    then record { buf = fresh; capacity = block_size; size = 0 }
    else record { buf = fresh; capacity = align_up size; size = 0 }

-- The vector of blocks is `full` with `block`, the last one, behind it.
pub record Packer : Type 0 where
  pub full : List Block
  pub block : Block
  pub ptr : ℕ

-- The pool's block size, and the address of the block that the next `Alloc` would give.
pub record Pool : Type 0 where
  pub block_size : ℕ
  pub fresh : ℕ

unfoldable pub new : Pool → Packer
unfolding alloc_block
new pool =
    let b = alloc_block pool.block_size pool.fresh 1 in record { full = []; block = b; ptr = b.buf }

-- `m_block = m_block_buffer->Alloc(need); m_ptr = m_block->buf;`, if the room is too small.
unfoldable pub make_room : Pool → ℕ → Bool → Packer → Packer
unfolding alloc_block
make_room pool need small p =
    let b = alloc_block pool.block_size pool.fresh need in
    if small then record { full = p.full ++ p.block ∷ []; block = b; ptr = b.buf } else p

-- `m_block->size += ptr - m_ptr; m_ptr = ptr;`
unfoldable pub advance : Packer → ℕ → Packer
advance p next = record {
  full = p.full;
  block = record {
    buf = p.block.buf;
    capacity = p.block.capacity;
    size = (p.block.size + (next - p.ptr)) % 2 ^ 32;
  };
  ptr = next;
}

-- `Pack(uint8_t)`, and the overloads for `bool` and `int8_t`, which convert and call it.
unfoldable pub pack_u8 : Pool → Mem → Packer → ℕ → Mem × Packer
unfolding make_room advance
pack_u8 pool mem p v =
    let q = make_room pool 1 (ltb p.block.capacity (p.block.size + 1)) p in
    let (m, next) = encode_fixed8 mem q.ptr v in (m, advance q next)

-- `PackFixed`: the sizes are of type `size_t`, so the sum does not wrap.
unfoldable pub pack_fixed16 : Pool → Mem → Packer → ℕ → Mem × Packer
unfolding make_room advance
pack_fixed16 pool mem p v =
    let q = make_room pool 2 (ltb p.block.capacity (p.block.size + 2)) p in
    let (m, next) = encode_fixed16 mem q.ptr v in (m, advance q next)

unfoldable pub pack_fixed32 : Pool → Mem → Packer → ℕ → Mem × Packer
unfolding make_room advance
pack_fixed32 pool mem p v =
    let q = make_room pool 4 (ltb p.block.capacity (p.block.size + 4)) p in
    let (m, next) = encode_fixed32 mem q.ptr v in (m, advance q next)

unfoldable pub pack_fixed64 : Pool → Mem → Packer → ℕ → Mem × Packer
unfolding make_room advance
pack_fixed64 pool mem p v =
    let q = make_room pool 8 (ltb p.block.capacity (p.block.size + 8)) p in
    let (m, next) = encode_fixed64 mem q.ptr v in (m, advance q next)

-- `Pack` of a `uint16_t`, `uint32_t` and `uint64_t` differ in the room that they ask for, which is an
-- `int` constant: the sum is a `uint32_t`.
unfoldable pub pack_varint : ℕ → Pool → Mem → Packer → ℕ → Mem × Packer
unfolding make_room advance
pack_varint limit pool mem p v =
    let q = make_room pool limit (ltb p.block.capacity ((p.block.size + limit) % 2 ^ 32)) p in
    let (m, next) = encode_varint mem q.ptr v in (m, advance q next)

-- `MAX_V16_SIZE`, `MAX_V32_SIZE`, `MAX_V64_SIZE`
unfoldable pub pack_u16 : Pool → Mem → Packer → ℕ → Mem × Packer
pack_u16 = pack_varint 3

unfoldable pub pack_u32 : Pool → Mem → Packer → ℕ → Mem × Packer
pack_u32 = pack_varint 5

unfoldable pub pack_u64 : Pool → Mem → Packer → ℕ → Mem × Packer
pack_u64 = pack_varint 10

unfoldable pub pack_i16 : Pool → Mem → Packer → ℕ → Mem × Packer
pack_i16 pool mem p v = pack_u16 pool mem p (encode_zig_zag 16 v)

unfoldable pub pack_i32 : Pool → Mem → Packer → ℕ → Mem × Packer
pack_i32 pool mem p v = pack_u32 pool mem p (encode_zig_zag 32 v)

unfoldable pub pack_i64 : Pool → Mem → Packer → ℕ → Mem × Packer
pack_i64 pool mem p v = pack_u64 pool mem p (encode_zig_zag 64 v)

-- `Pack(StrView)`: the room is that of a 16-bit length and the bytes; `Alloc` takes a `uint32_t`.
unfoldable pub pack_string : Pool → Mem → Packer → StrView → Mem × Packer
unfolding make_room advance
pack_string pool mem p v =
    let ns = (3 + v.size) % 2 ^ 64 in
    let q = make_room pool (ns % 2 ^ 32) (ltb p.block.capacity ((p.block.size + ns) % 2 ^ 64)) p in
    let (m, next) = encode_string mem q.ptr v in (m, advance q next)
