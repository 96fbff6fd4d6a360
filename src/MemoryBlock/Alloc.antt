-- ===== src/MemoryBlock/Alloc.antt =====
-- src/memory_block.cpp: `MemoryAlloc` on a valid block.
use xfutil.Base.{
  ℕ, zero, suc, ◌+◌, ◌*◌, ◌%◌, ◌^◌, ◌<◌, ◌≡◌, ◌⊎◌, inl, inr, refl, sym, subst, arith, true, false,
  ltb, ◌==◌, List, [], ◌∷◌, length,
}
use xfutil.BlockPool.{cut}
use xfutil.MemoryBlock.{MemoryBlock, alloc}
use xfutil.MemoryBlock.Valid.{IsSized, capacity, IsValid}

-- `alloc` gave nothing, for every element is held, or it gave an element.
abbrev pub AllocGives : ℕ → ℕ → ℕ → MemoryBlock → List ℕ → MemoryBlock × ℕ → Type 0
AllocGives address block_size element_size b held r =
    ((r.1 ≡ 0) × (r.0 ≡ b) × (length held ≡ capacity block_size element_size))
    ⊎ ((0 < r.1)
        × (xs : List ℕ) × (rest : ℕ) × IsValid address block_size element_size r.0 xs (r.1 ∷ held)
            rest)

alloc_fresh :
    (address block_size element_size : ℕ) (b : MemoryBlock) (held : List ℕ) (rest : ℕ)
    → IsSized address block_size element_size
    → IsValid address block_size element_size b [] held (suc rest)
    → IsValid address block_size element_size
        (record b {
          next_element_offset = (b.next_element_offset + b.element_size) % 2 ^ 32;
          element_used_cnt = (b.element_used_cnt + 1) % 2 ^ 16;
        })
        []
        ((b.address + b.next_element_offset) ∷ held)
        rest
unfolding cut
alloc_fresh address block_size element_size b held rest s v =
    let off : b.next_element_offset + element_size + rest * element_size ≡ block_size =
      omega (arith, v.offset) in
    let next : (b.next_element_offset + b.element_size) % 2 ^ 32
        ≡ b.next_element_offset + element_size =
      omega (arith, off, v.sizes, s.fits) in
    let assoc : address + (b.next_element_offset + element_size)
        ≡ address + b.next_element_offset + element_size =
      omega arith in
    record {
      sizes = v.sizes;
      max_num = v.max_num;
      chain = v.chain;
      offset = rw next off;
      used = omega (arith, v.used, v.total, s.few);
      total = omega (arith, v.total);
      shared = λ x. rw (next, v.sizes.0, assoc) (omega (arith, v.shared x));
    }

alloc_again :
    (address block_size element_size : ℕ) (b : MemoryBlock) (left held : List ℕ) (rest : ℕ)
    → IsSized address block_size element_size
    → IsValid address block_size element_size b (b.next_element_ptr ∷ left) held rest
    → IsValid address block_size element_size
        (record b {
          next_element_ptr = b.links b.next_element_ptr;
          element_used_cnt = (b.element_used_cnt + 1) % 2 ^ 16;
        })
        left
        (b.next_element_ptr ∷ held)
        rest
alloc_again address block_size element_size b left held rest s v = record {
  sizes = v.sizes;
  max_num = v.max_num;
  chain = v.chain.2;
  offset = v.offset;
  used = omega (arith, v.used, v.total, s.few);
  total = omega (arith, v.total);
  shared = λ x. omega (arith, v.shared x);
}

-- The chain is empty: the part that was never used gives an element, if it has one.
alloc_end :
    (address block_size element_size : ℕ) (b : MemoryBlock) (held : List ℕ) (rest : ℕ)
    → IsSized address block_size element_size
    → IsValid address block_size element_size b [] held rest
    → AllocGives address block_size element_size b held (alloc b)
unfolding alloc
alloc_end address block_size element_size b held zero s v =
    let full : (ltb b.next_element_offset b.block_size) ≡ false =
      ground (arith, v.offset, v.sizes) in
    let empty : (b.next_element_ptr == 0) ≡ true = ground (arith, v.chain) in
    rw (empty, full) (inl (refl, refl, omega (arith, v.total)))
alloc_end address block_size element_size b held (suc rest) s v =
    let more : (ltb b.next_element_offset b.block_size) ≡ true =
      ground (arith, v.offset, v.sizes, s.one) in
    let empty : (b.next_element_ptr == 0) ≡ true = ground (arith, v.chain) in
    rw (empty, more)
      (inr (
        omega (arith, v.sizes.0, s.placed),
        [],
        rest,
        alloc_fresh address block_size element_size b held rest s v,
      ))

pub alloc-gives :
    (address block_size element_size : ℕ) (b : MemoryBlock) (xs held : List ℕ) (rest : ℕ)
    → IsSized address block_size element_size
    → IsValid address block_size element_size b xs held rest
    → AllocGives address block_size element_size b held (alloc b)
unfolding alloc
alloc-gives address block_size element_size b [] held rest s v =
    alloc_end address block_size element_size b held rest s v
alloc-gives address block_size element_size b (x ∷ left) held rest s v =
    let some : (b.next_element_ptr == 0) ≡ false = ground (arith, v.chain.0, v.chain.1) in
    rw some (
      inr (
        omega (arith, v.chain.0, v.chain.1),
        left,
        rest,
        alloc_again address block_size element_size b left held rest s (
            subst (λ y. IsValid address block_size element_size b (y ∷ left) held rest)
              (sym v.chain.0) v),
      ))
