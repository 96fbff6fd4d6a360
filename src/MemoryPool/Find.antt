-- ===== src/MemoryPool/Find.antt =====
-- src/memory_pool.cpp: `FindMemoryBlock`.
use xfutil.Base.{
  ℕ, ◌-◌, ◌≤◌, ◌<◌, ◌≡◌, inl, inr, ap, sym, subst, arith, Bool-cases, ◌==◌, List, some,
}
use xfutil.BlockPool.Ownership.{count}
use xfutil.MemoryPool.{MemoryPool, block_at, find_memory_block}
use xfutil.MemoryPool.Ranges.{Has, Inside, upper_bound-least}
use xfutil.MemoryPool.Valid.{IsValid}
use xfutil.MemoryPool.Block.{count-held_le}

-- An address of a block is found there.
pub find-Inside :
    (ca cn bs size : ℕ) (pool : MemoryPool) (held : List ℕ) (e x : ℕ)
    → IsValid ca cn bs size pool held
    → Has e pool.ends
    → Inside (e - bs) bs x
    → find_memory_block pool x ≡ some (e - bs)
unfolding find_memory_block
find-Inside ca cn bs size pool held e x v has i =
    let low = (v.blocks e has).0 in
    let next = upper_bound-least x e pool.ends has (omega (arith, i, low)) first in
    subst (λ o. block_at pool.block_size o ≡ some (e - bs)) (sym next)
      (ap (λ n. some (e - n)) v.sizes.0)
  where
    first : (e' : ℕ) → Has e' pool.ends → x < e' → e ≤ e'
    first e' has' less = elim (Bool-cases (e == e')) [
      | inl same ↦ ground arith
      | inr differs ↦ omega (
        arith,
        v.apart e e' has has' (ground arith),
        (v.blocks e' has').0,
        (v.blocks e has).0,
        i,
        less,
      )
    ]

-- Nothing is held twice.
pub held-once :
    (ca cn bs size : ℕ) (pool : MemoryPool) (held : List ℕ) (x : ℕ)
    → IsValid ca cn bs size pool held
    → count x held ≤ 1
held-once ca cn bs size pool held x v = elim (Bool-cases (count x held == 0)) [
  | inl absent ↦ ground arith
  | inr has ↦ elim (v.owner x (ground arith)) [
    | inl i ↦ count-held_le cn size pool.cache ca x held i v.cache
    | inr (e, listed, i) ↦
        count-held_le bs size (pool.heads (e - bs)) (e - bs) x held i (v.blocks e listed).1
  ]
]
