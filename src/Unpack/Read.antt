-- ===== src/Unpack/Read.antt =====
-- src/unpack.cpp: what `Unpack` of a `uint64_t` reads, and where it leaves the pointer.
use xfutil.Base.{
  ℕ, ◌+◌, ◌%◌, ◌^◌, ◌≤◌, ◌<◌, ◌≡◌, refl, arith, Bool-cases, inl, inr, true, leb, lt→leb_false,
  le→ltb_false, List,
}
use native.Mathlib.Nat.{mod-eq_of_lt}
use xfutil.Memory.{Mem}
use xfutil.Coding.Varint.{encode_varint}
use xfutil.Coding.Varint.Encode.{encode_varint-write, length-groups}
use xfutil.Coding.Varint.Safety.{decode_varint_bounds}
use xfutil.Coding.Varint.RoundTrip.{decode-encode_varint}
use xfutil.Pack.{Block, Packer, Pool, make_room, advance, pack_varint, pack_u64}
use xfutil.Pack.Room.{IsSound}
use xfutil.Unpack.{Unpacker, next_block, unpack_with, unpack_u64}

next_block-inside :
    (empty : ℕ) (blocks : List Block) (u : Unpacker)
    → (next_block empty blocks u).1.ptr ≤ (next_block empty blocks u).1.buf_end
unfolding next_block
next_block-inside empty blocks u = ground arith

-- `Unpack` of a `uint64_t` leaves the pointer at most at the end of the block that it is in, whether
-- it returns true or false, if it stood so before.
pub unpack_u64-inside :
    (mem : Mem) (empty : ℕ) (blocks : List Block) (v : ℕ) (u : Unpacker)
    → u.ptr ≤ u.buf_end
    → (unpack_u64 mem empty blocks v u).unpacker.ptr
      ≤ (unpack_u64 mem empty blocks v u).unpacker.buf_end
unfolding unpack_u64 unpack_with
unpack_u64-inside mem empty blocks v u h = elim (Bool-cases (leb u.buf_end u.ptr)) [
  | inl at_end ↦ elim (Bool-cases (next_block empty blocks u).0) [
    | inl found ↦
        rw (at_end, found) (decode_varint_bounds mem _ _ (next_block-inside empty blocks u)).1
    | inr none_left ↦ rw (at_end, none_left) (next_block-inside empty blocks u)
  ]
  | inr inside ↦ rw inside (decode_varint_bounds mem _ _ h).1
]

pack_varint-stays :
    (pool : Pool) (mem : Mem) (p : Packer) (v : ℕ)
    → IsSound p
    → p.block.size + 10 ≤ p.block.capacity
    → pack_u64 pool mem p v
      ≡ ((encode_varint mem p.ptr v).0, advance p (encode_varint mem p.ptr v).1)
unfolding pack_u64 pack_varint make_room
pack_varint-stays pool mem p v s room = rw (wrap, le→ltb_false _ _ room) refl
  where
    wrap : (p.block.size + 10) % 2 ^ 32 ≡ p.block.size + 10
    wrap = mod-eq_of_lt (omega (arith, s.small))

encode_varint-moves : (mem : Mem) (buf v : ℕ) → v < 2 ^ 64 → buf < (encode_varint mem buf v).1
encode_varint-moves mem buf v hv =
    rw (encode_varint-write mem buf v hv) (omega (arith, (length-groups 9 v).0))

-- An unpacker that stands where a sound packer with ten bytes of room stood reads from the memory
-- after `Pack` of a `uint64_t` the packed value, returns true, and stands where the packer then
-- stands, if the end of its block is not before that.
pub unpack_u64-pack_u64 :
    (pool : Pool) (mem : Mem) (p : Packer) (v empty v0 : ℕ) (blocks : List Block) (u : Unpacker)
    → IsSound p
    → p.block.size + 10 ≤ p.block.capacity
    → v < 2 ^ 64
    → u.ptr ≡ p.ptr
    → (pack_u64 pool mem p v).1.ptr ≤ u.buf_end
    → unpack_u64 (pack_u64 pool mem p v).0 empty blocks v0 u
      ≡ record { ret = true; unpacker = record u { ptr = (pack_u64 pool mem p v).1.ptr }; v = v }
unfolding unpack_u64 unpack_with advance
unpack_u64-pack_u64 pool mem p v empty v0 blocks u s room hv same fits =
    let stays = pack_varint-stays pool mem p v s room in
    let within : (encode_varint mem p.ptr v).1 ≤ u.buf_end = rw stays at fits in
    rw
      (
        stays,
        same,
        lt→leb_false u.buf_end p.ptr (omega (arith, encode_varint-moves mem p.ptr v hv)),
      )
      (rw (decode-encode_varint mem p.ptr u.buf_end v hv within) refl)
