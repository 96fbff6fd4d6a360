-- ===== src/BlockPool/Ownership.antt =====
-- src/block_pool.cpp: who owns the blocks of the cache, over any sequence of calls.
use xfutil.Base.{
  ℕ, zero, suc, ◌+◌, ◌*◌, ◌≤◌, ◌<◌, ◌≡◌, ◌≢◌, ◌⊎◌, inl, inr, refl, ap, subst, arith, Bool-cases,
  true, ltb, leb, ◌==◌, if◌then◌else◌, ◌&&◌, List, [], ◌∷◌, ◌++◌,
}
use xfutil.BlockPool.{BlockPool, new, cut, init, alloc, free}

-- How often `x` is in the list.
abbrev pub count : ℕ → List ℕ → ℕ
count x [] = 0
count x (y ∷ ys) = (if x == y then 1 else 0) + count x ys

pub count-append : (x : ℕ) (ys zs : List ℕ) → count x (ys ++ zs) ≡ count x ys + count x zs
count-append x [] zs = omega arith
count-append x (y ∷ ys) zs = omega (arith, count-append x ys zs)

count-cut_below : (n bs buf x : ℕ) → x < buf → count x (cut n bs buf) ≡ 0
unfolding cut
count-cut_below zero bs buf x h = refl
count-cut_below (suc n) bs buf x h = ground (arith, count-cut_below n bs (buf + bs) x)

count-cut_above : (n bs buf x : ℕ) → 0 < bs → buf + bs * n ≤ x → count x (cut n bs buf) ≡ 0
unfolding cut
count-cut_above zero bs buf x pos h = refl
count-cut_above (suc n) bs buf x pos h =
    ground (arith, count-cut_above n bs (buf + bs) x pos (omega arith))

pub count-cut_outside :
    (n bs start x : ℕ)
    → 0 < bs
    → ¬ ((start ≤ x) × (x < start + bs * n))
    → count x (cut n bs start) ≡ 0
count-cut_outside n bs start x pos outside = elim (Bool-cases (ltb x start)) [
  | inl below ↦ count-cut_below n bs start x (ground arith)
  | inr above ↦ count-cut_above n bs start x pos (ground arith)
]

-- No block is cut twice.
pub count-cut_le : (n bs buf x : ℕ) → 0 < bs → count x (cut n bs buf) ≤ 1
unfolding cut
count-cut_le zero bs buf x pos = omega arith
count-cut_le (suc n) bs buf x pos =
    ground (arith, count-cut_le n bs (buf + bs) x pos, count-cut_below n bs (buf + bs) x)

List-cases {ℓ} :
    {A : Type ℓ} (xs : List A) → (xs ≡ []) ⊎ ((x : A) × (rest : List A) × (xs ≡ x ∷ rest))
List-cases [] = inl refl
List-cases (x ∷ rest) = inr (x, rest, refl)

abbrev pub InCache : BlockPool → ℕ → Type 0
InCache pool x = (pool.cache_start ≤ x) × (x < pool.cache_end)

-- The address `fresh` is new where `Alloc` would ask for it: outside the cache, and held by nobody.
abbrev pub Fresh : BlockPool → List ℕ → ℕ → Type 0
Fresh pool held fresh = ((pool.free_blocks ≡ []) → ¬ InCache pool fresh × (count fresh held ≡ 0))

-- The state after calls on a pool with `n` blocks of `bs` bytes from `start` on, and the blocks that
-- the callers hold.
pub data Calls (n bs start : ℕ) : BlockPool → List ℕ → Type 0 where
  ready : (init new bs n start).0 ≡ true → Calls n bs start (init new bs n start).1 []
  allocated :
      {pool : BlockPool} {held : List ℕ} (fresh : ℕ)
      → Calls n bs start pool held
      → Fresh pool held fresh
      → Calls n bs start (alloc pool fresh).0 ((alloc pool fresh).1 ∷ held)
  freed :
      {pool : BlockPool} (before after : List ℕ) (block : ℕ)
      → Calls n bs start pool (before ++ block ∷ after)
      → Calls n bs start (free pool block).0 (before ++ after)

-- Each block of the cache is free or held by one caller, and not both; nothing else is free, and no
-- other block is held twice.
pub record IsValid (n bs start : ℕ) (pool : BlockPool) (held : List ℕ) : Type 0 where
  pub size : 0 < bs
  pub bounds : (pool.cache_start ≡ start) × (pool.cache_end ≡ start + bs * n)
  pub cached :
      (x : ℕ) → InCache pool x → count x pool.free_blocks + count x held ≡ count x (cut n bs start)
  pub others : (x : ℕ) → ¬ InCache pool x → (count x pool.free_blocks ≡ 0) × (count x held ≤ 1)

init-true :
    (n bs start : ℕ)
    → (init new bs n start).0 ≡ true
    → (4096 ≤ bs)
      × ((init new bs n start).1 ≡ record {
        block_size = bs;
        cache_start = start;
        cache_end = start + bs * n;
        free_blocks = cut n bs start;
      })
unfolding init new
init-true n bs start h = ground arith

ready-IsValid :
    (n bs start : ℕ)
    → (init new bs n start).0 ≡ true
    → IsValid n bs start (init new bs n start).1 []
ready-IsValid n bs start h =
    let (big, made) = init-true n bs start h in
    rw made (record {
      size = omega arith;
      bounds = (refl, refl);
      cached = λ x inside. omega arith;
      others = λ x outside. (count-cut_outside n bs start x (omega arith) outside, omega arith);
    })

alloc_cached :
    (pool : BlockPool) (b fresh : ℕ) (rest : List ℕ)
    → pool.free_blocks ≡ b ∷ rest
    → alloc pool fresh ≡ (record pool { free_blocks = rest }, b)
unfolding alloc
alloc_cached pool b fresh rest e = rw e refl

count_other : (x y : ℕ) (ys : List ℕ) → x ≢ y → count x (y ∷ ys) ≡ count x ys
count_other x y ys h = ground arith

count_same : (x y : ℕ) (ys : List ℕ) → x ≡ y → count x ys ≡ count y ys
count_same x y ys e = ap (λ z. count z ys) e

alloc-IsValid :
    (n bs start : ℕ) (pool : BlockPool) (held : List ℕ) (fresh : ℕ)
    → IsValid n bs start pool held
    → Fresh pool held fresh
    → IsValid n bs start (alloc pool fresh).0 ((alloc pool fresh).1 ∷ held)
alloc-IsValid n bs start pool held fresh v new_block = elim (List-cases pool.free_blocks) [
  | inl empty ↦
      let (outside, unheld) = new_block empty in
      unfold alloc in
      rw empty (record {
        size = v.size;
        bounds = v.bounds;
        cached = λ x inside. omega (
          arith,
          count_other x fresh held (λ e. outside (subst (InCache pool) e inside)),
          v.cached x inside,
          ap (count x) empty,
        );
        others = λ x out. (refl, ground (arith, v.others x out, count_same x fresh held));
      })
  | inr (b, rest, e) ↦ rw (alloc_cached pool b fresh rest e) (record {
    size = v.size;
    bounds = v.bounds;
    cached = λ x inside. omega (arith, v.cached x inside, ap (count x) e);
    others = λ x out. (
      omega (arith, (v.others x out).0, ap (count x) e),
      omega (arith, (v.others x out).0, (v.others x out).1, ap (count x) e),
    );
  })
]

free-IsValid :
    (n bs start : ℕ) (pool : BlockPool) (before after : List ℕ) (block : ℕ)
    → IsValid n bs start pool (before ++ block ∷ after)
    → IsValid n bs start (free pool block).0 (before ++ after)
unfolding free
free-IsValid n bs start pool before after block v =
    elim (Bool-cases (leb pool.cache_start block && ltb block pool.cache_end)) [
      | inl inside ↦ rw inside (record {
        size = v.size;
        bounds = v.bounds;
        cached = λ x i. omega (arith, v.cached x i, moved x);
        others = λ x out.
            (ground (arith, (v.others x out).0), omega (arith, (v.others x out).1, moved x));
      })
      | inr outside ↦ rw outside (record {
        size = v.size;
        bounds = v.bounds;
        cached =
            λ x i. omega (arith, v.cached x i, moved x, count_other x block [] (λ e. ground arith));
        others = λ x out. ((v.others x out).0, omega (arith, (v.others x out).1, moved x));
      })
    ]
  where
    moved :
        (x : ℕ)
        → count x (before ++ block ∷ after)
          ≡ (if x == block then 1 else 0) + count x (before ++ after)
    moved x = omega (arith, count-append x before (block ∷ after), count-append x before after)

Calls-IsValid :
    (n bs start : ℕ) {pool : BlockPool} {held : List ℕ}
    → Calls n bs start pool held
    → IsValid n bs start pool held
Calls-IsValid n bs start (ready h) = ready-IsValid n bs start h
Calls-IsValid n bs start (allocated {pool = pool} {held = held} fresh calls new_block) =
    alloc-IsValid n bs start pool held fresh (Calls-IsValid n bs start calls) new_block
Calls-IsValid n bs start (freed {pool = pool} before after block calls) =
    free-IsValid n bs start pool before after block (Calls-IsValid n bs start calls)

-- After any calls on a new pool in which callers free what they hold, no block has two holders, no
-- block that is held is free, and each block that `Init` cut from the cache is free or held.
pub Calls-owned :
    (n bs start : ℕ) {pool : BlockPool} {held : List ℕ}
    → Calls n bs start pool held
    → (x : ℕ)
    → (count x pool.free_blocks + count x held ≤ 1)
      × (0 < count x (cut n bs start) → count x pool.free_blocks + count x held ≡ 1)
Calls-owned n bs start {pool} {held} calls x =
    elim (Bool-cases (leb pool.cache_start x && ltb x pool.cache_end)) [
      | inl inside ↦
          let same = v.cached x (ground arith) in
          (omega (arith, once), λ some_block. omega (arith, once))
      | inr outside ↦
          let out : ¬ InCache pool x = λ i. ground arith in
          (
            omega (arith, v.others x out),
            λ some_block. absurd (
                omega (
                  arith,
                  some_block,
                  count-cut_outside n bs start x v.size (λ i. ground (arith, out, v.bounds)),
                )),
          )
    ]
  where
    v : IsValid n bs start pool held
    v = Calls-IsValid n bs start calls

    once : count x (cut n bs start) ≤ 1
    once = count-cut_le n bs start x v.size
