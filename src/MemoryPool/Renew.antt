-- ===== src/MemoryPool/Renew.antt =====
-- src/memory_pool.cpp: `Alloc` puts a new block in.
use xfutil.Base.{
  ℕ, ◌+◌, ◌-◌, ◌%◌, ◌^◌, ◌<◌, ◌≡◌, ◌≢◌, ◌⊎◌, inl, inr, ap, sym, subst, ◌∙◌, arith, Bool-cases, true,
  false, ◌==◌, if◌then◌else◌, List, [], ◌∷◌, length,
}
use native.Mathlib.Nat.{le-div_iff_mul-le}
use xfutil.BlockPool.Ownership.{count}
use xfutil.MemoryBlock
use xfutil.MemoryBlock.{MemoryBlock, Freed, other, was_full, unused}
use xfutil.MemoryBlock.Valid.{IsSized, capacity}
use xfutil.MemoryPool.{MemoryPool, without, set_head, count_up, alloc_new}
use xfutil.MemoryPool.Ranges.{Has, Inside, Away, within, within_none, count-without}
use xfutil.MemoryPool.Valid.{
  IsBlock, IsValid, Alike, Covered, IsBlock-Alike, cons-Alike, cons-Covered,
}
use xfutil.MemoryPool.Block.{alloc-Gives, init-IsBlock}
use xfutil.MemoryPool.Alloc.{at_end, count_up_is}

-- The bytes of a new block are of no use yet.
pub record IsUnused (ca cn bs size : ℕ) (pool : MemoryPool) (h : ℕ) : Type 0 where
  pub sized : IsSized h bs size
  pub cache : Away h bs ca cn
  pub blocks : (e : ℕ) → Has e pool.ends → Away (e - bs) bs h bs

capacity_some : (a bs size : ℕ) → IsSized a bs size → 0 < capacity bs size
capacity_some a bs size s = (le-div_iff_mul-le s.one).1 (omega (arith, s.room))

module _ (ca cn bs size : ℕ) (pool : MemoryPool) (held : List ℕ) (h : ℕ)
    (v : IsValid ca cn bs size pool held) (new : IsUnused ca cn bs size pool h) where
  unheld : (x : ℕ) → Has x held → ¬ Inside h bs x
  unheld x has i = elim (v.owner x has) [
    | inl j ↦ omega (arith, i, j, new.cache)
    | inr (e, listed, j) ↦ omega (arith, i, j, new.blocks e listed)
  ]

  absent : count (h + bs) pool.ends ≡ 0
  absent = elim (Bool-cases (count (h + bs) pool.ends == 0)) [
    | inl missing ↦ ground arith
    | inr listed ↦
        let away = at_end bs h (λ a. Away a bs h bs) (new.blocks (h + bs) (ground arith)) in
        absurd (omega (arith, away, new.sized.room))
  ]

  abbrev ends : List ℕ
  ends = (h + bs) ∷ without (h + bs) pool.ends

  -- The ends after the step.
  listed : (e : ℕ) → Has e ends → (e ≡ h + bs) ⊎ (((e == h + bs) ≡ false) × Has e pool.ends)
  listed e has = elim (Bool-cases (e == h + bs)) [
    | inl same ↦ inl (ground arith)
    | inr differs ↦ inr (differs, ground (arith, count-without e (h + bs) pool.ends))
  ]

  count-ends : (e : ℕ) → count e ends ≡ (if e == h + bs then 1 else 0) + count e pool.ends
  count-ends e = elim (Bool-cases (e == h + bs)) [
    | inl same ↦
        let is : e ≡ h + bs = ground arith in
        ground (
          arith,
          count-without e (h + bs) pool.ends,
          subst (λ x. count x pool.ends ≡ 0) (sym is) absent,
        )
    | inr differs ↦ ground (arith, count-without e (h + bs) pool.ends)
  ]

  end-Has : Has (h + bs) ends
  end-Has = ground arith

  old-Has : (e : ℕ) → Has e pool.ends → Has e ends
  old-Has e has = omega (arith, has, count-ends e)

  keep-Away : (e e' : ℕ) → Has e ends → Has e' ends → e ≢ e' → Away (e - bs) bs (e' - bs) bs
  keep-Away e e' has has' ne = elim (listed e has) [
    | inl same ↦ elim (listed e' has') [
      | inl same' ↦ absurd (ne (same ∙ sym same'))
      | inr (differs, old') ↦ omega (arith, same, new.blocks e' old')
    ]
    | inr (differs, old) ↦ elim (listed e' has') [
      | inl same' ↦ omega (arith, same', new.blocks e old)
      | inr (differs', old') ↦ v.apart e e' old old' ne
    ]
  ]

  pub add_block-IsValid :
      (held' : List ℕ) (b : MemoryBlock) (u : ℕ)
      → IsBlock bs size b h held'
      → Alike h bs held held'
      → Covered h bs held held'
      → u ≡ length held' % 2 ^ 64
      → IsValid ca cn bs size
          (record pool {
            heads = set_head pool h b;
            ends = ends;
            free_list = h ∷ pool.free_list;
            used_cnt = u;
          })
          held'
  add_block-IsValid held' b u block alike covered used = record {
    sizes = v.sizes;
    cache =
        IsBlock-Alike cn size pool.cache ca h bs held held' alike (omega (arith, new.cache))
          v.cache;
    blocks = λ e has. elim (listed e has) [
      | inl same ↦
          let at : (e - bs == h) ≡ true = ground arith in
          let is : h ≡ e - bs = ground arith in
          (
            omega (arith, same),
            rw at (subst (λ a. IsBlock bs size b a held') is block),
            omega (arith, is, new.cache),
          )
      | inr (differs, old) ↦
          let (low, block', away) = v.blocks e old in
          let at : (e - bs == h) ≡ false = ground arith in
          (
            low,
            rw at (
                IsBlock-Alike bs size (pool.heads (e - bs)) (e - bs) h bs held held' alike
                  (new.blocks e old) block'),
            away,
          )
    ];
    apart = keep-Away;
    once = λ e. ground (arith, count-ends e, v.once e, absent);
    lists = λ x. ground (arith, count-ends (x + bs), v.lists x);
    owner = λ x kept. elim (covered x kept) [
      | inl old ↦ elim (v.owner x old) [
        | inl i ↦ inl i
        | inr (e, has, i) ↦ inr (e, old-Has e has, i)
      ]
      | inr i ↦ inr (h + bs, end-Has, at_start i)
    ];
    used = used;
  }
    where
      at_start : {x : ℕ} → Inside h bs x → Inside (h + bs - bs) bs x
      at_start i = omega (arith, i)

  unused_bytes : within h bs held ≡ []
  unused_bytes = within_none h bs held unheld

  -- `alloc_new` by the two sizes that it reads from the pool.
  abbrev renewed : (ℕ → ℕ) → ℕ → ℕ → MemoryPool × ℕ
  renewed links n k =
      let r = MemoryBlock.alloc (MemoryBlock.init links h n k) in
      (
        record pool {
          heads = set_head pool h r.0;
          ends = (h + n) ∷ without (h + n) pool.ends;
          free_list = h ∷ pool.free_list;
          used_cnt = count_up pool.used_cnt;
        },
        r.1,
      )

  abbrev Renewed : MemoryPool × ℕ → Type 0
  Renewed r = (0 < r.1) × IsValid ca cn bs size r.0 (r.1 ∷ held)

  renewed-Renewed : (links : ℕ → ℕ) → Renewed (renewed links bs size)
  renewed-Renewed links =
      elim (alloc-Gives bs size (MemoryBlock.init links h bs size) h held
        (init-IsBlock links bs size h held new.sized unused_bytes)) [
          | inl (zero_x, same, full) ↦
              absurd (omega (arith, rw unused_bytes at full, capacity_some h bs size new.sized))
          | inr (some_x, i, after) ↦ (
            some_x,
            add_block-IsValid _ _ _ after (cons-Alike h bs _ held i) (cons-Covered h bs _ held i)
                (ap count_up v.used ∙ count_up_is (length held)),
          )
        ]

  pub alloc_new-IsValid :
      (links : ℕ → ℕ)
      → (0 < (alloc_new links h pool).1)
        × IsValid ca cn bs size (alloc_new links h pool).0 ((alloc_new links h pool).1 ∷ held)
  unfolding alloc_new
  alloc_new-IsValid links =
      subst (λ n. Renewed (renewed links n pool.element_size)) (sym v.sizes.0)
        (subst (λ k. Renewed (renewed links bs k)) (sym v.sizes.1) (renewed-Renewed links))
