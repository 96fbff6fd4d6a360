-- ===== src/MemoryPool/Ownership.antt =====
-- src/memory_pool.cpp: any sequence of calls of a pool.
use xfutil.Base.{
  ℕ, ◌+◌, ◌-◌, ◌*◌, ◌/◌, ◌%◌, ◌^◌, ◌≤◌, ◌<◌, ◌≡◌, ◌⊎◌, inl, inr, refl, subst, arith, false, ◌==◌,
  List, [], ◌∷◌, ◌++◌, length, some,
}
use xfutil.BlockPool.Ownership.{count, count-append}
use xfutil.MemoryBlock
use xfutil.MemoryBlock.{MemoryBlock, Freed, other, was_full, unused}
use xfutil.MemoryBlock.Valid.{IsSized}
use xfutil.MemoryPool.{
  MemoryPool, alloc_here, alloc_new, init, align_up, used_count, find_memory_block, free,
}
use xfutil.MemoryPool.Ranges.{Has, Inside, Away}
use xfutil.MemoryPool.Valid.{IsValid}
use xfutil.MemoryPool.Block.{init-IsBlock}
use xfutil.MemoryPool.Renew.{IsUnused, alloc_new-IsValid}
use xfutil.MemoryPool.Alloc.{alloc_here-Allocated}
use xfutil.MemoryPool.Release.{free-Released}
use xfutil.MemoryPool.Find.{find-Inside, held-once}

-- A block has room for its head and at least one element, and its size and the number of its elements
-- fit their fields.
pub record Fits (block_size element_size : ℕ) : Type 0 where
  pub one : 0 < element_size
  pub room : MemoryBlock.head_size + element_size ≤ block_size
  pub fits : block_size < 2 ^ 32
  pub few : (block_size - MemoryBlock.head_size) / element_size < 2 ^ 16

IsSized-at : (a n size : ℕ) → 0 < a → Fits n size → IsSized a n size
IsSized-at a n size placed f = record {
  placed = placed;
  one = f.one;
  room = f.room;
  fits = f.fits;
  few = f.few;
}

-- The bytes of a new block are of no use yet.
pub record IsFresh (ca cn bs : ℕ) (pool : MemoryPool) (h : ℕ) : Type 0 where
  pub placed : 0 < h
  pub cache : Away h bs ca cn
  pub blocks : (e : ℕ) → Has e pool.ends → Away (e - bs) bs h bs

-- A pool before `Init`, on a block pool with blocks of `bs` bytes.
pub record IsNew (bs : ℕ) (pool : MemoryPool) : Type 0 where
  pub block_size : pool.block_size ≡ bs
  pub used_cnt : pool.used_cnt ≡ 0
  pub free_list : pool.free_list ≡ []
  pub full_list : pool.full_list ≡ []
  pub ends : pool.ends ≡ []

-- The calls made so far, and the elements that the callers hold: an element is freed by who holds it,
-- and a new block has bytes that are of no other use.
pub data Calls (ca cn bs size : ℕ) : MemoryPool → List ℕ → Type 0 where
  start :
      (links : ℕ → ℕ) (pool : MemoryPool) (element_size cache_num : ℕ)
      → IsNew bs pool
      → align_up element_size ≡ size
      → (cache_num * size + MemoryBlock.head_size) % 2 ^ 64 ≡ cn
      → 0 < ca
      → Calls ca cn bs size (init links ca pool element_size cache_num).1 []
  given :
      {pool : MemoryPool} {held : List ℕ}
      → Calls ca cn bs size pool held
      → 0 < (alloc_here pool).1
      → Calls ca cn bs size (alloc_here pool).0 ((alloc_here pool).1 ∷ held)
  full :
      {pool : MemoryPool} {held : List ℕ}
      → Calls ca cn bs size pool held
      → (alloc_here pool).1 ≡ 0
      → Calls ca cn bs size (alloc_here pool).0 held
  renew :
      {pool : MemoryPool} {held : List ℕ}
      → Calls ca cn bs size pool held
      → (links : ℕ → ℕ) (h : ℕ) → IsFresh ca cn bs pool h
      → Calls ca cn bs size (alloc_new links h pool).0 ((alloc_new links h pool).1 ∷ held)
  freed :
      {pool : MemoryPool} (before after : List ℕ) (x : ℕ)
      → Calls ca cn bs size pool (before ++ x ∷ after)
      → Calls ca cn bs size (free pool x).0 (before ++ after)

init-IsValid :
    (ca cn bs size : ℕ) (links : ℕ → ℕ) (pool : MemoryPool) (element_size cache_num : ℕ)
    → IsNew bs pool
    → align_up element_size ≡ size
    → (cache_num * size + MemoryBlock.head_size) % 2 ^ 64 ≡ cn
    → IsSized ca cn size
    → IsValid ca cn bs size (init links ca pool element_size cache_num).1 []
unfolding init
init-IsValid ca cn bs size links pool element_size cache_num new aligned total sized =
    let placed : (ca == 0) ≡ false = ground (arith, sized.placed) in
    rw (placed, aligned, total, small cn sized.fits)
      record {
        sizes = (new.block_size, refl, refl);
        cache = init-IsBlock links cn size ca [] sized refl;
        blocks = λ e has. absurd (no_end new.ends e has);
        apart = λ e e' has. absurd (no_end new.ends e has);
        once = λ e. rw new.ends (omega arith);
        lists = λ h. rw (new.ends, new.free_list, new.full_list) refl;
        owner = λ x kept. absurd (omega (arith, kept));
        used = new.used_cnt;
      }
  where
    small : (n : ℕ) → n < 2 ^ 32 → n % 2 ^ 32 ≡ n
    small n h = omega arith

    no_end : {es : List ℕ} → es ≡ [] → (e : ℕ) → Has e es → ⊥
    no_end same e has = omega (arith, rw same at has)

pub Calls-IsValid :
    (ca cn bs size : ℕ) {pool : MemoryPool} {held : List ℕ}
    → Fits cn size
    → Fits bs size
    → Calls ca cn bs size pool held
    → IsValid ca cn bs size pool held
Calls-IsValid ca cn bs size fc fb
      (start links pool element_size cache_num new aligned total placed) =
    init-IsValid ca cn bs size links pool element_size cache_num new aligned total
      (IsSized-at ca cn size placed fc)
Calls-IsValid ca cn bs size fc fb (given {pool} {held} calls some_x) =
    elim (alloc_here-Allocated ca cn bs size pool held (Calls-IsValid ca cn bs size fc fb calls)) [
      | inl (zero_x, valid) ↦ absurd (omega (arith, zero_x, some_x))
      | inr (positive, valid) ↦ valid
    ]
Calls-IsValid ca cn bs size fc fb (full {pool} {held} calls zero_x) =
    elim (alloc_here-Allocated ca cn bs size pool held (Calls-IsValid ca cn bs size fc fb calls)) [
      | inl (same, valid) ↦ valid
      | inr (positive, valid) ↦ absurd (omega (arith, zero_x, positive))
    ]
Calls-IsValid ca cn bs size fc fb (renew {pool} {held} calls links h new) =
    (alloc_new-IsValid ca cn bs size pool held h (Calls-IsValid ca cn bs size fc fb calls)
      (unused_at new) links).1
  where
    unused_at : IsFresh ca cn bs pool h → IsUnused ca cn bs size pool h
    unused_at n = record {
      sized = IsSized-at h bs size n.placed fb;
      cache = n.cache;
      blocks = n.blocks;
    }
Calls-IsValid ca cn bs size fc fb (freed {pool} before after x calls) =
    (free-Released ca cn bs size pool before after x (Calls-IsValid ca cn bs size fc fb calls)).0

-- Where the cache and the blocks have room for their head of 40 bytes and for 1 to 65,535 elements, and
-- are smaller than 2^32 bytes: after any sequence of the steps of `Init`, `Alloc` and `Free`, where each
-- new block has bytes that nothing else uses and each caller frees what it holds, no element is held twice, and `UsedCount` is
-- the number of the elements held, modulo 2^64.
pub Calls-once :
    (ca cn bs size : ℕ) (pool : MemoryPool) (held : List ℕ)
    → Fits cn size
    → Fits bs size
    → Calls ca cn bs size pool held
    → ((x : ℕ) → count x held ≤ 1) × (used_count pool ≡ length held % 2 ^ 64)
unfolding used_count
Calls-once ca cn bs size pool held fc fb calls =
    let v = Calls-IsValid ca cn bs size fc fb calls in
    (λ x. held-once ca cn bs size pool held x v, v.used)

-- Under the same conditions on the sizes and the steps, an element that is held lies in the cache block, or in a block of the pool that
-- `FindMemoryBlock` gives for it.
pub Calls-found :
    (ca cn bs size : ℕ) (pool : MemoryPool) (held : List ℕ) (x : ℕ)
    → Fits cn size
    → Fits bs size
    → Calls ca cn bs size pool held
    → Has x held
    → Inside ca cn x
      ⊎ ((h : ℕ) × (find_memory_block pool x ≡ some h)
          × Inside h bs x
          × Has h (pool.free_list ++ pool.full_list))
Calls-found ca cn bs size pool held x fc fb calls has =
    let v = Calls-IsValid ca cn bs size fc fb calls in
    elim (v.owner x has) [
      | inl i ↦ inl i
      | inr (e, listed, i) ↦
          let end : e - bs + bs ≡ e = omega (arith, (v.blocks e listed).0) in
          inr (
            e - bs,
            find-Inside ca cn bs size pool held e x v listed i,
            i,
            omega (
              arith,
              subst
                  (λ k.
                    count (e - bs) pool.free_list + count (e - bs) pool.full_list
                    ≡ count k pool.ends)
                  end (v.lists (e - bs)),
              listed,
              count-append (e - bs) pool.free_list pool.full_list,
            ),
          )
    ]

-- Under the same conditions on the sizes and the steps, a block that `Free` gives back to the block
-- pool has no element that is still held.
pub Calls-returned :
    (ca cn bs size : ℕ) (pool : MemoryPool) (before after : List ℕ) (x h : ℕ)
    → Fits cn size
    → Fits bs size
    → Calls ca cn bs size pool (before ++ x ∷ after)
    → (free pool x).1 ≡ some h
    → (y : ℕ) → Has y (before ++ after)
    → ¬ Inside h bs y
Calls-returned ca cn bs size pool before after x h fc fb calls back =
    ((free-Released ca cn bs size pool before after x (Calls-IsValid ca cn bs size fc fb calls)).1 h
      back).1
