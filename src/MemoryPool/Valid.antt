-- ===== src/MemoryPool/Valid.antt =====
-- src/memory_pool.cpp: what holds of a pool between two steps.
use xfutil.Base.{
  ℕ, ◌+◌, ◌-◌, ◌%◌, ◌^◌, ◌≤◌, ◌≡◌, ◌≢◌, ◌⊎◌, inl, inr, ap, sym, subst, ◌∙◌, arith, Bool-cases,
  false, ◌==◌, List, ◌∷◌, ◌++◌, length,
}
use xfutil.BlockPool.Ownership.{count, count-append}
use xfutil.MemoryBlock.{MemoryBlock}
use xfutil.MemoryBlock.Valid.{IsSized, capacity}
use xfutil.MemoryBlock.Valid
use xfutil.MemoryPool.{MemoryPool, set_head}
use xfutil.MemoryPool.Ranges.{Has, Inside, Away, within, within_out, within-append}

-- The `n` bytes from `a` on are a valid block, whose elements in use are those held in it.
pub record IsBlock (n size : ℕ) (b : MemoryBlock) (a : ℕ) (held : List ℕ) : Type 0 where
  pub sized : IsSized a n size
  pub xs : List ℕ
  pub rest : ℕ
  pub valid : Valid.IsValid a n size b xs (within a n held) rest

-- The pool has its cache of `cn` bytes from `ca` on, and blocks of `bs` bytes. `held` are the elements
-- that the callers hold.
pub record IsValid (ca cn bs size : ℕ) (pool : MemoryPool) (held : List ℕ) : Type 0 where
  pub sizes : (pool.block_size ≡ bs) × (pool.element_size ≡ size) × (pool.cache_end ≡ ca + cn)
  pub cache : IsBlock cn size pool.cache ca held
  pub blocks :
      (e : ℕ)
      → Has e pool.ends
      → (bs ≤ e) × IsBlock bs size (pool.heads (e - bs)) (e - bs) held × Away (e - bs) bs ca cn
  pub apart :
      (e e' : ℕ) → Has e pool.ends → Has e' pool.ends → e ≢ e' → Away (e - bs) bs (e' - bs) bs
  pub once : (e : ℕ) → count e pool.ends ≤ 1
  pub lists : (h : ℕ) → count h pool.free_list + count h pool.full_list ≡ count (h + bs) pool.ends
  pub owner :
      (x : ℕ) → Has x held → Inside ca cn x ⊎ ((e : ℕ) × Has e pool.ends × Inside (e - bs) bs x)
  pub used : pool.used_cnt ≡ length held % 2 ^ 64

-- Two lists have the same elements outside of a range.
abbrev pub Alike : ℕ → ℕ → List ℕ → List ℕ → Type 0
Alike a n held held' = (b m : ℕ) → Away b m a n → within b m held ≡ within b m held'

-- What the second list has, the first one has, unless it lies in the range.
abbrev pub Covered : ℕ → ℕ → List ℕ → List ℕ → Type 0
Covered a n held held' = (x : ℕ) → Has x held' → Has x held ⊎ Inside a n x

pub cons-Alike : (a n x : ℕ) (held : List ℕ) → Inside a n x → Alike a n held (x ∷ held)
cons-Alike a n x held i b m away = sym (within_out b m x held (λ j. omega (arith, i, j, away)))

pub cons-Covered : (a n x : ℕ) (held : List ℕ) → Inside a n x → Covered a n held (x ∷ held)
cons-Covered a n x held i y has = elim (Bool-cases (y == x)) [
  | inl same ↦ let is : x ≡ y = ground arith in inr (subst (Inside a n) is i)
  | inr other ↦ inl (ground arith)
]

pub move-Alike :
    (a n x : ℕ) (before after : List ℕ)
    → Inside a n x
    → Alike a n (before ++ x ∷ after) (before ++ after)
move-Alike a n x before after i b m away =
    within-append b m before (x ∷ after)
    ∙ ap (◌++◌ (within b m before)) (within_out b m x after (λ j. omega (arith, i, j, away)))
    ∙ sym (within-append b m before after)

pub move-Covered :
    (a n x : ℕ) (before after : List ℕ) → Covered a n (before ++ x ∷ after) (before ++ after)
move-Covered a n x before after y has =
    inl (omega (arith, has, count-append y before (x ∷ after), count-append y before after))

pub IsBlock-Alike :
    (n size : ℕ) (b : MemoryBlock) (a c m : ℕ) (held held' : List ℕ)
    → Alike c m held held'
    → Away a n c m
    → IsBlock n size b a held
    → IsBlock n size b a held'
IsBlock-Alike n size b a c m held held' alike away v = record {
  sized = v.sized;
  xs = v.xs;
  rest = v.rest;
  valid = subst (λ l. Valid.IsValid a n size b v.xs l v.rest) (alike a n away) v.valid;
}

module _ (ca cn bs size : ℕ) (pool : MemoryPool) (held held' : List ℕ)
    (v : IsValid ca cn bs size pool held) where
  -- The cache changes, and what is held of it.
  pub replace_cache-IsValid :
      (b : MemoryBlock) (u : ℕ)
      → IsBlock cn size b ca held'
      → Alike ca cn held held'
      → Covered ca cn held held'
      → u ≡ length held' % 2 ^ 64
      → IsValid ca cn bs size (record pool { cache = b; used_cnt = u }) held'
  replace_cache-IsValid b u block alike covered used = record {
    sizes = v.sizes;
    cache = block;
    blocks = λ e has.
        let (low, old, away) = v.blocks e has in
        (
          low,
          IsBlock-Alike bs size (pool.heads (e - bs)) (e - bs) ca cn held held' alike away old,
          away,
        );
    apart = v.apart;
    once = v.once;
    lists = v.lists;
    owner = λ x kept. elim (covered x kept) [ inl old ↦ v.owner x old | inr i ↦ inl i ];
    used = used;
  }

  -- One block changes, and what is held of it.
  pub replace_block-IsValid :
      (h : ℕ) (b : MemoryBlock) (u : ℕ)
      → Has (h + bs) pool.ends
      → IsBlock bs size b h held'
      → Alike h bs held held'
      → Covered h bs held held'
      → u ≡ length held' % 2 ^ 64
      → IsValid ca cn bs size (record pool { heads = set_head pool h b; used_cnt = u }) held'
  replace_block-IsValid h b u has block alike covered used = record {
    sizes = v.sizes;
    cache =
        IsBlock-Alike cn size pool.cache ca h bs held held' alike
          (turn _ _ _ _ (at (v.blocks (h + bs) has).2)) v.cache;
    blocks = λ e listed. elim (Bool-cases (e - bs == h)) [
      | inl same ↦
          let (low, old, away) = v.blocks e listed in
          let is : h ≡ e - bs = ground arith in
          (low, rw same (subst (λ a. IsBlock bs size b a held') is block), away)
      | inr other ↦
          let (low, old, away) = v.blocks e listed in
          let apart = v.apart e (h + bs) listed has (ends_ne e low other) in
          (
            low,
            rw other (
                IsBlock-Alike bs size (pool.heads (e - bs)) (e - bs) h bs held held' alike
                  (from _ _ apart) old),
            away,
          )
    ];
    apart = v.apart;
    once = v.once;
    lists = v.lists;
    owner = λ x kept. elim (covered x kept) [
      | inl old ↦ v.owner x old
      | inr i ↦ inr (h + bs, has, rw under i)
    ];
    used = used;
  }
    where
      turn : (a n b m : ℕ) → Away a n b m → Away b m a n
      turn a n b m (inl x) = inr x
      turn a n b m (inr x) = inl x

      under : h + bs - bs ≡ h
      under = omega arith

      ends_ne : (e : ℕ) → bs ≤ e → (e - bs == h) ≡ false → e ≢ h + bs
      ends_ne e low other same = ground arith

      from : (a n : ℕ) → Away a n (h + bs - bs) bs → Away a n h bs
      from a n away = omega (arith, away)

      at : Away (h + bs - bs) bs ca cn → Away h bs ca cn
      at away = omega (arith, away)
