-- ===== src/MemoryPool/Release.antt =====
-- src/memory_pool.cpp: `Free` keeps the pool valid.
use xfutil.Base.{
  ℕ, suc, ◌+◌, ◌-◌, ◌%◌, ◌^◌, ◌≡◌, inl, inr, refl, ap, sym, subst, ◌∙◌, arith, Bool-cases, true,
  false, ◌&&◌, ltb, leb, ◌==◌, List, [], ◌∷◌, ◌++◌, length, Option, none, some,
}
use xfutil.BlockPool.Ownership.{count, count-append}
use xfutil.MemoryBlock.{Freed}
use xfutil.MemoryBlock.Free.{report}
use xfutil.MemoryBlock.Valid.{capacity}
use xfutil.MemoryPool.{MemoryPool, without, count_down, after_free, find_memory_block, free}
use xfutil.MemoryPool.Ranges.{Has, Inside, Away, within, count-without}
use xfutil.MemoryPool.Valid.{IsBlock, IsValid, replace_cache-IsValid, replace_block-IsValid}
use xfutil.MemoryPool.Alloc.{move-IsValid}
use xfutil.MemoryPool.Ranges.{within_empty}
use xfutil.MemoryPool.Find.{find-Inside}
use xfutil.MemoryPool.Valid.{move-Alike, move-Covered}
use xfutil.MemoryPool.Block.{free-IsBlock-report}

module _ (ca cn bs size : ℕ) where
  -- A block goes that has no element in use.
  pub remove_block-IsValid :
      (pool : MemoryPool) (held : List ℕ) (h : ℕ)
      → Has (h + bs) pool.ends
      → ((x : ℕ) → Has x held → ¬ Inside h bs x)
      → IsValid ca cn bs size pool held
      → IsValid ca cn bs size
          (record pool {
            free_list = without h pool.free_list;
            full_list = without h pool.full_list;
            ends = without (h + bs) pool.ends;
          })
          held
  remove_block-IsValid pool held h has unheld v = record {
    sizes = v.sizes;
    cache = v.cache;
    blocks = λ e listed. v.blocks e (old e listed);
    apart = λ e e' listed listed'. v.apart e e' (old e listed) (old e' listed');
    once = λ e. ground (arith, count-without e (h + bs) pool.ends, v.once e);
    lists = λ x. ground (
      arith,
      count-without x h pool.free_list,
      count-without x h pool.full_list,
      count-without (x + bs) (h + bs) pool.ends,
      v.lists x,
    );
    owner = λ x kept. elim (v.owner x kept) [
      | inl i ↦ inl i
      | inr (e, listed, i) ↦ elim (Bool-cases (e == h + bs)) [
        | inl same ↦ absurd (unheld x kept (omega (arith, i, same_end e same)))
        | inr differs ↦ inr (e, ground (arith, count-without e (h + bs) pool.ends), i)
      ]
    ];
    used = v.used;
  }
    where
      old : (e : ℕ) → Has e (without (h + bs) pool.ends) → Has e pool.ends
      old e listed = ground (arith, count-without e (h + bs) pool.ends)

      same_end : (e : ℕ) → (e == h + bs) ≡ true → e ≡ h + bs
      same_end e same = ground arith

  count_down_is : (n m : ℕ) → n ≡ suc m → count_down (n % 2 ^ 64) ≡ m % 2 ^ 64
  count_down_is n m e = omega (arith, e)

  length_moved :
      (x : ℕ) (before after : List ℕ)
      → length (before ++ x ∷ after) ≡ suc (length (before ++ after))
  length_moved x [] after = refl
  length_moved x (y ∷ before) after = ap suc (length_moved x before after)

  -- The pool without the element, and with no element left in a block that it gives back.
  abbrev pub Released : MemoryPool → List ℕ → MemoryPool × Option ℕ → Type 0
  Released pool held r =
      IsValid ca cn bs size r.0 held
      × ((h : ℕ) → r.1 ≡ some h → Has (h + bs) pool.ends × ((x : ℕ) → Has x held → ¬ Inside h bs x))

  none-ne : {a : ℕ} {P : Type 0} → none ≡ some a → P
  none-ne e = absurd (cc)

  after_free-Released :
      (pool : MemoryPool) (held : List ℕ) (h : ℕ) (f : Freed)
      → Has (h + bs) pool.ends
      → f ≡ report (capacity bs size) (length (within h bs held))
      → IsValid ca cn bs size pool held
      → Released pool held (after_free pool h f)
  after_free-Released pool held h f has is v =
      subst (λ f. Released pool held (after_free pool h f)) (sym is)
        (elim (Bool-cases (length (within h bs held) == 0)) [
          | inl zero_left ↦
              let unheld = within_empty h bs held (ground arith) in
              rw zero_left (
                subst
                    (λ n.
                      IsValid ca cn bs size
                        (record pool {
                          free_list = without h pool.free_list;
                          full_list = without h pool.full_list;
                          ends = without (h + n) pool.ends;
                        })
                        held)
                    (sym v.sizes.0) (remove_block-IsValid pool held h has unheld v),
                λ x at.
                    subst (λ k. Has (k + bs) pool.ends × ((x : ℕ) → Has x held → ¬ Inside k bs x))
                      (some-inj at) (has, unheld),
              )
          | inr some_left ↦ elim (Bool-cases (length (within h bs held) + 1 == capacity bs size)) [
            | inl full ↦
                rw (some_left, full)
                  (move-IsValid ca cn bs size pool held _ _ turned v, λ x at. none-ne at)
            | inr more ↦ rw (some_left, more) (v, λ x at. none-ne at)
          ]
        ])
    where
      some-inj : {a b : ℕ} → some a ≡ some b → a ≡ b
      some-inj e = cc

      turned :
          (x : ℕ)
          → count x (without h pool.free_list ++ h ∷ []) + count x (without h pool.full_list)
            ≡ count x pool.free_list + count x pool.full_list
      turned x = ground (
        arith,
        count-without x h pool.free_list,
        count-without x h pool.full_list,
        count-append x (without h pool.free_list) (h ∷ []),
        v.lists x,
        v.once (x + bs),
        has,
      )

  module _ (pool : MemoryPool) (before after : List ℕ) (x : ℕ)
      (v : IsValid ca cn bs size pool (before ++ x ∷ after)) where
    counted_down : count_down pool.used_cnt ≡ length (before ++ after) % 2 ^ 64
    counted_down = ap count_down v.used ∙ count_down_is _ _ (length_moved x before after)

    free_cache-Released : Inside ca cn x → Released pool (before ++ after) (free pool x)
    unfolding free
    free_cache-Released i =
        let address = v.cache.valid.sizes.0 in
        let in_cache : (ltb x pool.cache_end && leb pool.cache.address x) ≡ true =
          ground (arith, i, v.sizes, address) in
        let block = free-IsBlock-report cn size pool.cache ca x before after i v.cache in
        rw in_cache (
          replace_cache-IsValid ca cn bs size pool _ _ v _ _ block.0
              (move-Alike ca cn x before after i) (move-Covered ca cn x before after) counted_down,
          λ h at. none-ne at,
        )

    free_block-Released :
        (h : ℕ)
        → Has (h + bs) pool.ends
        → Inside h bs x
        → Away h bs ca cn
        → find_memory_block pool x ≡ some h
        → IsBlock bs size (pool.heads h) h (before ++ x ∷ after)
        → Released pool (before ++ after) (free pool x)
    unfolding free
    free_block-Released h has i away found old =
        let address = v.cache.valid.sizes.0 in
        let not_cache : (ltb x pool.cache_end && leb pool.cache.address x) ≡ false =
          ground (arith, i, away, v.sizes, address) in
        let block = free-IsBlock-report bs size (pool.heads h) h x before after i old in
        rw (not_cache, found)
          (after_free-Released _ (before ++ after) h _ has block.1 (
            replace_block-IsValid ca cn bs size pool _ _ v h _ _ has block.0
              (move-Alike h bs x before after i) (move-Covered h bs x before after) counted_down))

    pub free-Released : Released pool (before ++ after) (free pool x)
    free-Released = elim (v.owner x held) [
      | inl i ↦ free_cache-Released i
      | inr (e, has, i) ↦
          let (low, block, away) = v.blocks e has in
          let end : e - bs + bs ≡ e = omega (arith, low) in
          free_block-Released (e - bs) (rw end has) i away
            (find-Inside ca cn bs size pool _ e x v has i) block
    ]
      where
        held : Has x (before ++ x ∷ after)
        held = ground (arith, count-append x before (x ∷ after))
