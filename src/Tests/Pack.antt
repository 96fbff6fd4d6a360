-- ===== src/Tests/Pack.antt =====
-- src/pack.cpp at concrete inputs.
use xfutil.Base.{◌^◌, ◌<◌, arith, []}
use xfutil.Memory.{Mem}
use xfutil.Pack.{Packer, Pool, new, pack_u16, pack_u32, pack_u64}
use xfutil.Pack.Room.{IsSound, new-IsSound, pack_u-IsSound}

abbrev blank : Mem
blank q = 0

abbrev pool : Pool
pool = record { block_size = 4096; fresh = 65536 }

pack_u-IsSound_example :
    (300 < 2 ^ 16 → IsSound (pack_u16 pool blank (new pool) 300).1)
    × (300 < 2 ^ 32 → IsSound (pack_u32 pool blank (new pool) 300).1)
    × (300 < 2 ^ 64 → IsSound (pack_u64 pool blank (new pool) 300).1)
pack_u-IsSound_example = pack_u-IsSound pool blank (new pool) 300 new-IsSound_sound (omega arith)
  where
    new-IsSound_sound : IsSound (new pool)
    new-IsSound_sound = new-IsSound pool (omega arith) (omega arith)

-- A block of 4 MiB that has all its room left.
abbrev large : Packer
large = record {
  full = [];
  block = record { buf = 65536; capacity = 2 ^ 22; size = 0 };
  ptr = 65536;
}

large-IsSound : IsSound large
large-IsSound = record { at_end = omega arith; within = omega arith; small = omega arith }
