-- ===== src/Hash.antt =====
-- src/hash.cpp: the three overloads of `Hash32`, and the tail that they read.
pub mod Bytes
use xfutil.Base.{
  ℕ, zero, suc, ◌+◌, ◌*◌, ◌/◌, ◌%◌, ◌^◌, Bool, true, false, ◌||◌, ◌==◌, bit_and, bit_or,
  if◌then◌else◌,
}
use xfutil.Memory.{Mem}
use xfutil.Coding.Fixed.{decode_fixed32}

-- `Decode`: a `switch` whose cases 3, 2 and 1 fall through.
unfoldable pub decode_tail : Mem → ℕ → ℕ → ℕ
decode_tail mem data_ len =
    let v3 = if len == 3 then bit_or 0 (mem (data_ + 2) * 2 ^ 16) else 0 in
    let v2 = if len == 3 || len == 2 then bit_or v3 (mem (data_ + 1) * 2 ^ 8) else v3 in
    if len == 3 || (len == 2 || len == 1) then bit_or v2 (mem data_) else v2

-- `h += v; h *= seed;`
unfoldable pub mix : ℕ → ℕ → ℕ → ℕ
mix seed h v = (h + v) % 2 ^ 32 * seed % 2 ^ 32

-- `while(DecodeFixed(data, end, v))`: the hash, and the pointer behind the last whole word. Each
-- round takes four bytes, so a quarter of them and one more round are enough.
unfoldable pub hash32_loop : ℕ → ℕ → Mem → ℕ → ℕ → ℕ → ℕ → ℕ × ℕ
hash32_loop zero seed mem data_ end v h = (h, data_)
hash32_loop (suc rounds) seed mem data_ end v h =
    let d = decode_fixed32 mem data_ end v in
    let more = hash32_loop rounds seed mem d.buf end d.v (mix seed h d.v) in
    if d.ret then more else (h, data_)

-- The code after the loop: the one to three bytes that are left.
unfoldable pub hash32_rest : ℕ → Mem → ℕ → ℕ × ℕ → ℕ
hash32_rest seed mem len (h, p) =
    let tail = len % 4 in if tail == 0 then h else mix seed h (decode_tail mem p tail)

-- `v` is uninitialised before the loop, so its value is an argument.
unfoldable pub hash32 : ℕ → Mem → ℕ → ℕ → ℕ → ℕ
unfolding hash32_rest hash32_loop
hash32 v mem data_ len seed =
    let h = seed * len % 2 ^ 64 % 2 ^ 32 in
    hash32_rest seed mem len (hash32_loop (len / 4 + 1) seed mem data_ (data_ + len) v h)

unfoldable pub hash32_u32 : ℕ → ℕ → ℕ
hash32_u32 value seed = mix seed (seed * 4 % 2 ^ 32) value

unfoldable pub hash32_u64 : ℕ → ℕ → ℕ
hash32_u64 value seed =
    mix seed (mix seed (seed * 8 % 2 ^ 32) (bit_and value 0xffffffff)) (value / 2 ^ 32 % 2 ^ 32)
