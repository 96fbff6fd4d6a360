-- ===== src/Bloom.antt =====
-- src/bloom_filter.cpp, include/xfutil/bloom_filter.h: the class `BloomFilter`. The string `m_data` is
-- a list of bytes; a hash is a `uint32_t`.
pub mod Bits
pub mod Check
use xfutil.Base.{
  ℕ, zero, suc, ◌+◌, ◌*◌, ◌/◌, ◌%◌, ◌^◌, Bool, true, false, ltb, ◌==◌, if◌then◌else◌, bit_and,
  bit_or, List, [], ◌∷◌, ◌++◌, Option, none, some, length, get_or, set, take, replicate,
}

pub record BloomFilter : Type 0 where
  pub bitnum_perkey : ℕ
  pub k_num : ℕ
  pub data_ : List ℕ

-- The constructor. The product with 0.69314 is cut to an integer: for fewer than 44 bits a key the
-- decimal fraction is far from an integer, and from there on the bound 30 is met.
unfoldable pub new : ℕ → BloomFilter
new bitnum =
    let k = bitnum * 69314 / 100000 in
    record {
      bitnum_perkey = bitnum;
      k_num = if ltb k 1 then 1 else if ltb 30 k then 30 else k;
      data_ = [];
    }

-- `hc = (hc >> 1) | (hc << 31)`
unfoldable pub rotate : ℕ → ℕ
rotate hc = bit_or (hc / 2) (hc * 2 ^ 31 % 2 ^ 32)

-- `data[bit_pos / 8] |= (1 << (bit_pos % 8))`
unfoldable pub set_bit : List ℕ → ℕ → List ℕ
set_bit bytes pos = set bytes (pos / 8) (bit_or (get_or bytes (pos / 8) 0) (2 ^ (pos % 8)))

-- `(data[bit_pos / 8] & (1 << (bit_pos % 8))) == 0`
unfoldable pub bit_is_clear : List ℕ → ℕ → Bool
bit_is_clear bytes pos = bit_and (get_or bytes (pos / 8) 0) (2 ^ (pos % 8)) == 0

-- The inner loop of `Create`, over `j` with `m_k_num` rounds.
unfoldable pub add_key : ℕ → ℕ → List ℕ → ℕ → List ℕ
add_key zero total_bits bytes hc = bytes
add_key (suc j) total_bits bytes hc =
    add_key j total_bits (set_bit bytes (hc % total_bits)) (rotate hc)

-- The outer loop of `Create`.
unfoldable pub add_keys : ℕ → ℕ → List ℕ → List ℕ → List ℕ
add_keys k total_bits bytes [] = bytes
add_keys k total_bits bytes (hc ∷ hashes) =
    add_keys k total_bits (add_key k total_bits bytes hc) hashes

-- `m_data.resize(n)`
unfoldable pub resize : ℕ → List ℕ → List ℕ
resize n bytes = take n (bytes ++ replicate n 0)

-- `Create(hash_ptr, count)`, over the list of the hashes. With no bit a key the code divides by zero:
-- `none`.
unfoldable pub create : BloomFilter → List ℕ → Option (Bool × BloomFilter)
unfolding add_keys add_key resize
create bf [] = some (false, bf)
create bf (hc ∷ hashes) =
    let total_bytes = (length (hc ∷ hashes) * bf.bitnum_perkey + 7) / 8 in
    let total_bits = total_bytes * 8 in
    if total_bits == 0
    then none
    else some (
      true,
      record bf {
        data_ = add_keys bf.k_num total_bits (resize total_bytes bf.data_) (hc ∷ hashes);
      },
    )

-- The loop of the second `Create`, which takes each hash off the front of the deque: the bytes, and
-- what is left of the deque.
unfoldable pub drain_keys : ℕ → ℕ → List ℕ → List ℕ → List ℕ × List ℕ
drain_keys k total_bits bytes [] = (bytes, [])
drain_keys k total_bits bytes (hc ∷ hashes) =
    drain_keys k total_bits (add_key k total_bits bytes hc) hashes

-- `Create(hashs)`: also the deque after the call.
unfoldable pub create_deque : BloomFilter → List ℕ → Option (Bool × BloomFilter × List ℕ)
unfolding drain_keys add_key resize
create_deque bf [] = some (false, bf, [])
create_deque bf (hc ∷ hashes) =
    let total_bytes = (length (hc ∷ hashes) * bf.bitnum_perkey + 7) / 8 in
    let total_bits = total_bytes * 8 in
    let (bytes, left) =
      drain_keys bf.k_num total_bits (resize total_bytes bf.data_) (hc ∷ hashes) in
    if total_bits == 0 then none else some (true, record bf { data_ = bytes }, left)

-- `Attach(data)`
unfoldable pub attach : BloomFilter → List ℕ → BloomFilter
attach bf bytes = record bf { data_ = bytes }

-- The loop of `Check`.
unfoldable pub check_loop : ℕ → ℕ → List ℕ → ℕ → Bool
check_loop zero total_bits bytes hc = true
check_loop (suc j) total_bits bytes hc =
    let rest = check_loop j total_bits bytes (rotate hc) in
    if bit_is_clear bytes (hc % total_bits) then false else rest

unfoldable pub check : BloomFilter → ℕ → Bool
unfolding check_loop
check bf hc =
    if length bf.data_ == 0 then true else check_loop bf.k_num (length bf.data_ * 8) bf.data_ hc
