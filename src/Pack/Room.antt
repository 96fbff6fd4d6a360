-- ===== src/Pack/Room.antt =====
-- src/pack.cpp: every write of a `Packer` stays in its current block, but for long strings.
use xfutil.Base.{
  ℕ, ◌+◌, ◌/◌, ◌%◌, ◌^◌, ◌≤◌, ◌<◌, ◌≡◌, refl, arith, false, ltb, leb, [], ◌∷◌, ◌++◌, length,
  Bool-cases, inl, inr, ltb_false→le, le→leb, leb→le, le→ltb_false,
}
use native.Mathlib.Nat.{mod-eq_of_lt}
use xfutil.Memory.{Mem}
use xfutil.Coding.Varint.Encode.{
  varint, encode_varint-write, length-groups, groups_more, length-groups-le,
}
use xfutil.Coding.Text.{StrView, encode_string}
use xfutil.Pack.{
  Block, Packer, Pool, alloc_block, align_up, new, make_room, advance, pack_varint, pack_u16,
  pack_u32, pack_u64, pack_string,
}

-- The write pointer stands behind what the block holds, and that is within the block.
pub record IsSound (p : Packer) : Type 0 where
  pub at_end : p.ptr ≡ p.block.buf + p.block.size
  pub within : p.block.size ≤ p.block.capacity
  pub small : p.block.capacity < 2 ^ 31

-- Room for `need` bytes behind the pointer.
record HasRoom (need : ℕ) (p : Packer) : Type 0 where
  sound : IsSound p
  room : p.block.size + need ≤ p.block.capacity

alloc_block-fits :
    (n fresh need : ℕ)
    → need < 2 ^ 30
    → n < 2 ^ 31
    → (need ≤ (alloc_block n fresh need).capacity) × ((alloc_block n fresh need).capacity < 2 ^ 31)
unfolding alloc_block align_up
alloc_block-fits n fresh need h hb = elim (Bool-cases (leb need n)) [
  | inl fits ↦ rw fits (leb→le need n fits, hb)
  | inr long ↦
      let wrap : (need + 4095) % 2 ^ 32 ≡ need + 4095 = mod-eq_of_lt (omega arith) in
      rw (long, wrap) (omega arith, omega arith)
]

alloc_block-empty :
    (n fresh need : ℕ)
    → ((alloc_block n fresh need).size ≡ 0) × ((alloc_block n fresh need).buf ≡ fresh)
unfolding alloc_block
alloc_block-empty n fresh need = elim (Bool-cases (leb need n)) [
  | inl e ↦ rw e (refl, refl)
  | inr e ↦ rw e (refl, refl)
]

make_room-HasRoom :
    (pool : Pool) (need : ℕ) (p : Packer)
    → IsSound p
    → need < 2 ^ 30
    → pool.block_size < 2 ^ 31
    → HasRoom need (make_room pool need (ltb p.block.capacity (p.block.size + need)) p)
unfolding make_room
make_room-HasRoom pool need p s h hb =
    elim (Bool-cases (ltb p.block.capacity (p.block.size + need))) [
      | inl small ↦ rw small (
          fresh_room (alloc_block-fits pool.block_size pool.fresh need h hb)
            (alloc_block-empty pool.block_size pool.fresh need))
      | inr large ↦ rw large (record { sound = s; room = ltb_false→le _ _ large })
    ]
  where
    b : Block
    b = alloc_block pool.block_size pool.fresh need

    fresh_room :
        (need ≤ b.capacity) × (b.capacity < 2 ^ 31)
        → (b.size ≡ 0) × (b.buf ≡ pool.fresh)
        → HasRoom need (record { full = p.full ++ p.block ∷ []; block = b; ptr = b.buf })
    fresh_room fits empty = record {
      sound = record {
        at_end = omega (arith, empty.0);
        within = omega (arith, empty.0);
        small = fits.1;
      };
      room = omega (arith, empty.0, fits.0);
    }

advance-IsSound :
    (p : Packer) (need next : ℕ)
    → HasRoom need p
    → p.ptr ≤ next
    → next ≤ p.ptr + need
    → IsSound (advance p next)
unfolding advance
advance-IsSound p need next h lo hi = record {
  at_end = omega (arith, h.sound.at_end, h.sound.within, h.sound.small, h.room);
  within = omega (arith, h.sound.at_end, h.sound.within, h.sound.small, h.room);
  small = h.sound.small;
}

-- A new packer is sound.
pub new-IsSound :
    (pool : Pool) → 1 ≤ pool.block_size → pool.block_size < 2 ^ 31 → IsSound (new pool)
unfolding new alloc_block
new-IsSound pool h hb =
    rw (le→leb 1 pool.block_size h)
      (record { at_end = omega arith; within = omega arith; small = hb })

-- `Pack` of an unsigned integer keeps the packer sound where the room asked for holds its encoding.
pack_varint-IsSound :
    (limit : ℕ) (pool : Pool) (mem : Mem) (p : Packer) (v : ℕ)
    → IsSound p
    → limit ≤ 10
    → pool.block_size < 2 ^ 31
    → v < 2 ^ 64
    → length (varint v) ≤ limit
    → IsSound (pack_varint limit pool mem p v).1
unfolding pack_varint
pack_varint-IsSound limit pool mem p v s hl hb hv short = rw wrap (
    rw (encode_varint-write mem q.ptr v hv) (
      advance-IsSound q limit (q.ptr + length (varint v))
        (make_room-HasRoom pool limit p s (omega arith) hb) (omega arith) (omega arith)))
  where
    wrap : (p.block.size + limit) % 2 ^ 32 ≡ p.block.size + limit
    wrap = mod-eq_of_lt (omega (arith, s.within, s.small))

    q : Packer
    q = make_room pool limit (ltb p.block.capacity (p.block.size + limit)) p

-- With a pool whose blocks are smaller than 2^31 bytes, `Pack` of a `uint16_t`, `uint32_t` or
-- `uint64_t` into a sound packer leaves it sound: the write
-- pointer stands where the block's contents end, within the block's capacity.
pub pack_u-IsSound :
    (pool : Pool) (mem : Mem) (p : Packer) (v : ℕ)
    → IsSound p
    → pool.block_size < 2 ^ 31
    → (v < 2 ^ 16 → IsSound (pack_u16 pool mem p v).1)
      × (v < 2 ^ 32 → IsSound (pack_u32 pool mem p v).1)
      × (v < 2 ^ 64 → IsSound (pack_u64 pool mem p v).1)
unfolding pack_u16 pack_u32 pack_u64
pack_u-IsSound pool mem p v s hb = (
  λ hv.
      pack_varint-IsSound 3 pool mem p v s (omega arith) hb (omega arith)
        (length-groups-le 9 2 v (omega arith)),
  λ hv.
      pack_varint-IsSound 5 pool mem p v s (omega arith) hb (omega arith)
        (length-groups-le 9 4 v (omega arith)),
  λ hv.
      pack_varint-IsSound 10 pool mem p v s (omega arith) hb hv
        (length-groups-le 9 9 v (omega arith)),
)

-- `Pack` of a view shorter than 2 MiB into a sound packer leaves it sound.
pub pack_string-IsSound :
    (pool : Pool) (mem : Mem) (p : Packer) (v : StrView)
    → IsSound p
    → pool.block_size < 2 ^ 31
    → v.size < 2 ^ 21
    → IsSound (pack_string pool mem p v).1
unfolding pack_string encode_string
pack_string-IsSound pool mem p v s hb hv =
    rw (need, cut, wrap)
      (rw (encode_varint-write mem q.ptr v.size (omega arith)) (
        advance-IsSound q (3 + v.size) (q.ptr + length (varint v.size) + v.size)
          (make_room-HasRoom pool (3 + v.size) p s (omega arith) hb) (omega arith)
          (omega (arith, length-groups-le 9 2 v.size (omega arith)))))
  where
    need : (3 + v.size) % 2 ^ 64 ≡ 3 + v.size
    need = mod-eq_of_lt (omega arith)

    cut : (3 + v.size) % 2 ^ 32 ≡ 3 + v.size
    cut = mod-eq_of_lt (omega arith)

    wrap : (p.block.size + (3 + v.size)) % 2 ^ 64 ≡ p.block.size + (3 + v.size)
    wrap = mod-eq_of_lt (omega (arith, s.within, s.small))

    q : Packer
    q = make_room pool (3 + v.size) (ltb p.block.capacity (p.block.size + (3 + v.size))) p

long_varint : (v : ℕ) → 2 ^ 21 ≤ v → 4 ≤ length (varint v)
long_varint v h =
    rw
      (
        groups_more 8 v (omega arith),
        groups_more 7 (v / 128) (omega arith),
        groups_more 6 (v / 128 / 128) (omega arith),
      )
      (omega (arith, (length-groups 6 (v / 128 / 128 / 128)).0))

-- `Pack` of a view of 2 MiB to 1 GiB that leaves exactly the three bytes for its length that the test
-- for room counts makes the block's contents longer than its capacity.
pub pack_string-overruns :
    (pool : Pool) (mem : Mem) (p : Packer) (v : StrView)
    → IsSound p
    → 2 ^ 21 ≤ v.size
    → v.size < 2 ^ 30
    → p.block.size + (3 + v.size) ≡ p.block.capacity
    → p.block.capacity < (pack_string pool mem p v).1.block.size
unfolding pack_string encode_string make_room advance
pack_string-overruns pool mem p v s lo hi exact =
    rw (need, wrap, enough_room)
      (rw (encode_varint-write mem p.ptr v.size (omega arith))
        (omega (arith, long_varint v.size lo, length-groups-le 9 4 v.size (omega arith), s.small)))
  where
    need : (3 + v.size) % 2 ^ 64 ≡ 3 + v.size
    need = mod-eq_of_lt (omega arith)

    wrap : (p.block.size + (3 + v.size)) % 2 ^ 64 ≡ p.block.size + (3 + v.size)
    wrap = mod-eq_of_lt (omega (arith, s.within, s.small))

    enough_room : ltb p.block.capacity (p.block.size + (3 + v.size)) ≡ false
    enough_room = le→ltb_false _ _ (omega arith)
