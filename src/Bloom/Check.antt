-- ===== src/Bloom/Check.antt =====
-- src/bloom_filter.cpp: `Check` after `Create` has no false negatives.
use xfutil.Base.{
  ℕ, zero, suc, ◌+◌, ◌*◌, ◌/◌, ◌%◌, ◌<◌, ◌≡◌, refl, ◌∙◌, arith, true, false, ◌==◌, ==_ne, List, [],
  ◌∷◌, length, Bool-cases, inl, inr, All, All-map, some, length-append, length-replicate,
  length-take_le, replicate,
}
use xfutil.Bloom.{
  BloomFilter, set_bit, bit_is_clear, add_key, add_keys, resize, create, create_deque, drain_keys,
  check, check_loop, rotate,
}
use mathlib.Core.Option
use native.Mathlib.Nat.{mod-lt}
use xfutil.Bloom.Bits.{length-set_bit, bit_is_clear-set_bit_self, bit_is_clear-set_bit}

length-resize : (n : ℕ) (xs : List ℕ) → length (resize n xs) ≡ n
unfolding resize
length-resize n xs =
    length-take_le n _
      (omega (arith, length-append {0} xs (replicate n 0), length-replicate {0} {A = ℕ} n 0))

length-add_key : (k total : ℕ) (xs : List ℕ) (hc : ℕ) → length (add_key k total xs hc) ≡ length xs
unfolding add_key
length-add_key zero total xs hc = refl
length-add_key (suc k) total xs hc = length-add_key k total _ _ ∙ length-set_bit xs _

length-add_keys : (k total : ℕ) (xs hs : List ℕ) → length (add_keys k total xs hs) ≡ length xs
unfolding add_keys
length-add_keys k total xs [] = refl
length-add_keys k total xs (h ∷ hs) =
    length-add_keys k total (add_key k total xs h) hs ∙ length-add_key k total xs h

-- Setting a bit keeps every positive answer.
check_loop-set_bit :
    (j total : ℕ) (xs : List ℕ) (hc p : ℕ)
    → check_loop j total xs hc ≡ true
    → check_loop j total (set_bit xs p) hc ≡ true
unfolding check_loop
check_loop-set_bit zero total xs hc p h = refl
check_loop-set_bit (suc j) total xs hc p h =
    ground
      (arith, bit_is_clear-set_bit xs p (hc % total), check_loop-set_bit j total xs (rotate hc) p)

check_loop-add_key_other :
    (k j total : ℕ) (xs : List ℕ) (hc hc' : ℕ)
    → check_loop j total xs hc ≡ true
    → check_loop j total (add_key k total xs hc') hc ≡ true
unfolding add_key
check_loop-add_key_other zero j total xs hc hc' h = h
check_loop-add_key_other (suc k) j total xs hc hc' h =
    check_loop-add_key_other k j total _ hc (rotate hc') (check_loop-set_bit j total xs hc _ h)

bit_is_clear-add_key :
    (k total : ℕ) (xs : List ℕ) (q hc : ℕ)
    → bit_is_clear xs q ≡ false
    → bit_is_clear (add_key k total xs hc) q ≡ false
unfolding add_key
bit_is_clear-add_key zero total xs q hc h = h
bit_is_clear-add_key (suc k) total xs q hc h =
    bit_is_clear-add_key k total _ q (rotate hc) (bit_is_clear-set_bit xs _ q h)

check_loop-add_key :
    (k total : ℕ) (xs : List ℕ) (hc : ℕ)
    → 0 < total
    → total ≡ length xs * 8
    → check_loop k total (add_key k total xs hc) hc ≡ true
unfolding add_key check_loop
check_loop-add_key zero total xs hc pos e = refl
check_loop-add_key (suc k) total xs hc pos e =
    rw
      (bit_is_clear-add_key k total (set_bit xs (hc % total)) (hc % total) (rotate hc)
        (bit_is_clear-set_bit_self xs (hc % total) (omega (arith, mod-lt hc pos))))
      (check_loop-add_key k total (set_bit xs (hc % total)) (rotate hc) pos
        (omega (arith, length-set_bit xs (hc % total))))

check_loop-add_keys_other :
    (k total : ℕ) (xs hs : List ℕ) (hc : ℕ)
    → check_loop k total xs hc ≡ true
    → check_loop k total (add_keys k total xs hs) hc ≡ true
unfolding add_keys
check_loop-add_keys_other k total xs [] hc h = h
check_loop-add_keys_other k total xs (h' ∷ hs) hc h =
    check_loop-add_keys_other k total (add_key k total xs h') hs hc
      (check_loop-add_key_other k k total xs hc h' h)

check_loop-add_keys :
    (k total : ℕ) (xs hs : List ℕ)
    → 0 < total
    → total ≡ length xs * 8
    → All (λ hc. check_loop k total (add_keys k total xs hs) hc ≡ true) hs
unfolding add_keys
check_loop-add_keys k total xs [] pos e = tt
check_loop-add_keys k total xs (h ∷ hs) pos e = (
  check_loop-add_keys_other k total _ hs h (check_loop-add_key k total xs h pos e),
  check_loop-add_keys k total (add_key k total xs h) hs pos
      (omega (arith, length-add_key k total xs h)),
)

-- `Create` of at least one hash, with at least one bit a key, succeeds, and `Check` then answers true
-- for every hash that it was given, whatever data the filter held before.
pub check-create :
    (bf : BloomFilter) (hc : ℕ) (hashes : List ℕ)
    → 0 < bf.bitnum_perkey
    → (bf' : BloomFilter) × (create bf (hc ∷ hashes) ≡ some (true, bf'))
      × All (λ h. check bf' h ≡ true) (hc ∷ hashes)
unfolding create check
check-create bf hc hashes pos = (
  record bf { data_ = bytes },
  rw (==_ne (n * 8) 0 (omega arith)),
  All-map (λ h e. rw (size, ==_ne n 0 (omega arith)) e) (hc ∷ hashes)
      (check_loop-add_keys bf.k_num (n * 8) (resize n bf.data_) (hc ∷ hashes) (omega arith)
        (omega (arith, length-resize n bf.data_))),
)
  where
    n : ℕ
    n = (length (hc ∷ hashes) * bf.bitnum_perkey + 7) / 8

    bytes : List ℕ
    bytes = add_keys bf.k_num (n * 8) (resize n bf.data_) (hc ∷ hashes)

    size : length bytes ≡ n
    size =
        length-add_keys bf.k_num (n * 8) (resize n bf.data_) (hc ∷ hashes)
        ∙ length-resize n bf.data_

    some_bytes : 0 < n
    some_bytes = omega arith

drain_keys-add_keys :
    (k total : ℕ) (xs hs : List ℕ) → drain_keys k total xs hs ≡ (add_keys k total xs hs, [])
unfolding drain_keys add_keys
drain_keys-add_keys k total xs [] = refl
drain_keys-add_keys k total xs (h ∷ hs) = drain_keys-add_keys k total (add_key k total xs h) hs

-- `Create` from a deque makes the filter that `Create` from an array makes, or fails as it does, and
-- leaves the deque empty.
pub create_deque-create :
    (bf : BloomFilter) (hashes : List ℕ)
    → create_deque bf hashes ≡ Option.map (λ r. (r.0, r.1, [])) (create bf hashes)
unfolding create create_deque
create_deque-create bf [] = refl
create_deque-create bf (hc ∷ hashes) =
    rw drain_keys-add_keys (elim (Bool-cases (n * 8 == 0)) [ inl e ↦ rw e | inr e ↦ rw e ])
  where
    n : ℕ
    n = (length (hc ∷ hashes) * bf.bitnum_perkey + 7) / 8
