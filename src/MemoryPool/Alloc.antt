-- ===== src/MemoryPool/Alloc.antt =====
-- src/memory_pool.cpp: the steps of `Alloc` keep the pool valid.
use xfutil.Base.{
  ℕ, suc, ◌+◌, ◌-◌, ◌%◌, ◌^◌, ◌<◌, ◌≡◌, ◌⊎◌, inl, inr, refl, ap, sym, subst, ◌∙◌, arith, true,
  false, not, ◌==◌, List, [], ◌∷◌, ◌++◌, length,
}
use xfutil.BlockPool.Ownership.{count, count-append}
use xfutil.MemoryBlock
use xfutil.MemoryBlock.{MemoryBlock, Freed, other, was_full, unused}
use xfutil.MemoryPool.{MemoryPool, without, count_up, alloc_listed, alloc_here}
use xfutil.MemoryPool.Ranges.{Has, count-without}
use xfutil.MemoryPool.Valid.{
  IsBlock, IsValid, cons-Alike, cons-Covered, replace_cache-IsValid, replace_block-IsValid,
}
use xfutil.MemoryPool.Block.{alloc-Gives}

-- The step gave nothing, or an element that the pool now counts as held.
abbrev pub Allocated : ℕ → ℕ → ℕ → ℕ → List ℕ → MemoryPool × ℕ → Type 0
Allocated ca cn bs size held r =
    ((r.1 ≡ 0) × IsValid ca cn bs size r.0 held)
    ⊎ ((0 < r.1) × IsValid ca cn bs size r.0 (r.1 ∷ held))

-- A block's bytes with the address that its end gives.
pub at_end : (bs h : ℕ) (P : ℕ → Type 0) → P (h + bs - bs) → P h
at_end bs h P p = let under : h + bs - bs ≡ h = omega arith in subst P under p

pub count_up_is : (n : ℕ) → count_up (n % 2 ^ 64) ≡ suc n % 2 ^ 64
count_up_is n = omega arith

module _ (ca cn bs size : ℕ) where
  -- A node goes to another place of the lists.
  pub move-IsValid :
      (pool : MemoryPool) (held free_list full_list : List ℕ)
      → ((h : ℕ)
          → count h free_list + count h full_list ≡ count h pool.free_list + count h pool.full_list)
      → IsValid ca cn bs size pool held
      → IsValid ca cn bs size (record pool { free_list = free_list; full_list = full_list }) held
  move-IsValid pool held free_list full_list same v = record {
    sizes = v.sizes;
    cache = v.cache;
    blocks = v.blocks;
    apart = v.apart;
    once = v.once;
    lists = λ h. same h ∙ v.lists h;
    owner = v.owner;
    used = v.used;
  }

  alloc_listed-Allocated :
      (pool : MemoryPool) (held xs : List ℕ)
      → pool.free_list ≡ xs
      → IsValid ca cn bs size pool held
      → Allocated ca cn bs size held (alloc_listed pool xs)
  alloc_listed-Allocated pool held [] is v = inl (refl, v)
  alloc_listed-Allocated pool held (h ∷ rest) is v =
      elim (alloc-Gives bs size (pool.heads h) h held block) [
        | inl (zero_x, same, full) ↦
            let to : not ((MemoryBlock.alloc (pool.heads h)).1 == 0) ≡ false = ground arith in
            rw to (
              inl (
                refl,
                move-IsValid _ held _ _ (turned is) (
                    replace_block-IsValid ca cn bs size pool held held v h _ _ has
                      (subst (λ b. IsBlock bs size b h held) (sym same) block) (λ b m away. refl)
                      (λ x kept. inl kept) v.used),
              ))
        | inr (some_x, i, after) ↦
            let to : not ((MemoryBlock.alloc (pool.heads h)).1 == 0) ≡ true = ground arith in
            rw to (
              inr (
                some_x,
                replace_block-IsValid ca cn bs size pool held _ v h _ _ has after
                    (cons-Alike h bs _ held i) (cons-Covered h bs _ held i)
                    (ap count_up v.used ∙ count_up_is (length held)),
              ))
      ]
    where
      listed : pool.free_list ≡ h ∷ rest → 0 < count h pool.free_list
      listed e = rw e (ground arith)

      has : Has (h + bs) pool.ends
      has = omega (arith, listed is, v.lists h)

      block : IsBlock bs size (pool.heads h) h held
      block = at_end bs h (λ a. IsBlock bs size (pool.heads a) a held) (v.blocks (h + bs) has).1

      turned :
          pool.free_list ≡ h ∷ rest
          → (x : ℕ)
          → count x (without h pool.free_list) + count x (without h pool.full_list ++ h ∷ [])
            ≡ count x pool.free_list + count x pool.full_list
      turned e x = ground (
        arith,
        count-without x h pool.free_list,
        count-without x h pool.full_list,
        count-append x (without h pool.full_list) (h ∷ []),
        v.lists x,
        v.once (x + bs),
        has,
      )

  pub alloc_here-Allocated :
      (pool : MemoryPool) (held : List ℕ)
      → IsValid ca cn bs size pool held
      → Allocated ca cn bs size held (alloc_here pool)
  unfolding alloc_here
  alloc_here-Allocated pool held v = elim (alloc-Gives cn size pool.cache ca held v.cache) [
    | inl (zero_x, same, full) ↦
        let to : not ((MemoryBlock.alloc pool.cache).1 == 0) ≡ false = ground arith in
        rw (to, same) (alloc_listed-Allocated pool held pool.free_list refl v)
    | inr (some_x, i, after) ↦
        let to : not ((MemoryBlock.alloc pool.cache).1 == 0) ≡ true = ground arith in
        rw to (
          inr (
            some_x,
            replace_cache-IsValid ca cn bs size pool held _ v _ _ after (cons-Alike ca cn _ held i)
                (cons-Covered ca cn _ held i) (ap count_up v.used ∙ count_up_is (length held)),
          ))
  ]
