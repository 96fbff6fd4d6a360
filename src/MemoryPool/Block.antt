-- ===== src/MemoryPool/Block.antt =====
-- src/memory_pool.cpp: the calls of memory_block.h that the pool makes.
use xfutil.Base.{
  ℕ, suc, ◌+◌, ◌-◌, ◌*◌, ◌≤◌, ◌<◌, ◌≡◌, ◌⊎◌, inl, inr, ap, subst, ◌∙◌, arith, List, [], ◌∷◌, ◌++◌,
  length,
}
use xfutil.BlockPool.Ownership.{count, count-cut_le}
use xfutil.MemoryBlock
use xfutil.MemoryBlock.{MemoryBlock}
use xfutil.MemoryBlock.Alloc.{alloc-gives}
use xfutil.MemoryBlock.Free.{held-inside, report, free-IsValid-report}
use xfutil.MemoryBlock.Valid
use xfutil.MemoryBlock.Valid.{IsSized, capacity, init-IsValid}
use xfutil.MemoryPool.Ranges.{Inside, within, within_in, within-append, count-within}
use xfutil.MemoryPool.Valid.{IsBlock}

-- The block gave nothing and stays as it was, for all its elements are held, or it gave one of its bytes.
abbrev pub Gives : ℕ → ℕ → MemoryBlock → ℕ → List ℕ → MemoryBlock × ℕ → Type 0
Gives n size b a held r =
    ((r.1 ≡ 0) × (r.0 ≡ b) × (length (within a n held) ≡ capacity n size))
    ⊎ ((0 < r.1) × Inside a n r.1 × IsBlock n size r.0 a (r.1 ∷ held))

pub alloc-Gives :
    (n size : ℕ) (b : MemoryBlock) (a : ℕ) (held : List ℕ)
    → IsBlock n size b a held
    → Gives n size b a held (MemoryBlock.alloc b)
alloc-Gives n size b a held v =
    elim (alloc-gives a n size b v.xs (within a n held) v.rest v.sized v.valid) [
      | inl nothing ↦ inl nothing
      | inr (some_x, xs, rest, valid) ↦
          let x = (MemoryBlock.alloc b).1 in
          let i : Inside a n x =
            held-inside a n size x v.sized
              (omega (arith, valid.shared x, self x (within a n held))) in
          inr (
            some_x,
            i,
            record {
              sized = v.sized;
              xs = xs;
              rest = rest;
              valid = rw (within_in a n x held i) valid;
            },
          )
    ]
  where
    self : (x : ℕ) (xs : List ℕ) → count x (x ∷ xs) ≡ suc (count x xs)
    self x xs = ground arith

pub init-IsBlock :
    (links : ℕ → ℕ) (n size a : ℕ) (held : List ℕ)
    → IsSized a n size
    → within a n held ≡ []
    → IsBlock n size (MemoryBlock.init links a n size) a held
init-IsBlock links n size a held sized empty = record {
  sized = sized;
  xs = [];
  rest = capacity n size;
  valid = rw empty (init-IsValid links a n size sized);
}

pub free-IsBlock-report :
    (n size : ℕ) (b : MemoryBlock) (a x : ℕ) (before after : List ℕ)
    → Inside a n x
    → IsBlock n size b a (before ++ x ∷ after)
    → IsBlock n size (MemoryBlock.free b x).0 a (before ++ after)
      × ((MemoryBlock.free b x).1
          ≡ report (capacity n size) (length (within a n (before ++ after))))
free-IsBlock-report n size b a x before after i v =
    let split : within a n (before ++ x ∷ after) ≡ within a n before ++ x ∷ within a n after =
      within-append a n before (x ∷ after)
      ∙ ap (◌++◌ (within a n before)) (within_in a n x after i) in
    let valid =
      free-IsValid-report a n size b v.xs (within a n before) (within a n after) v.rest x v.sized
        (subst (λ l. Valid.IsValid a n size b v.xs l v.rest) split v.valid) in
    let joined = within-append a n before after in
    (
      record { sized = v.sized; xs = x ∷ v.xs; rest = v.rest; valid = rw joined valid.0 },
      rw joined valid.1,
    )

-- A block holds an address at most once.
pub count-held_le :
    (n size : ℕ) (b : MemoryBlock) (a x : ℕ) (held : List ℕ)
    → Inside a n x
    → IsBlock n size b a held
    → count x held ≤ 1
count-held_le n size b a x held i v = omega (
  arith,
  v.valid.shared x,
  count-within a n x held i,
  count-cut_le (capacity n size) size (a + (n - capacity n size * size)) x v.sized.one,
)
