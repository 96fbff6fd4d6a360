-- ===== src/Lru/Sizes.antt =====
-- include/xfutil/lru_cache.h: the sizes of the nodes in a list.
use xfutil.Base.{ℕ, ◌+◌, ◌%◌, ◌^◌, ◌≡◌, arith, List, [], ◌∷◌, some}
use xfutil.Lru.{Node, Entry, minus, deref, erase, pop_back, back}

module _ {V : Type 0} where
  abbrev pub sum : List (Entry V) → ℕ
  sum [] = 0
  sum (e ∷ es) = e.node.value_size + sum es

  pub sum-erase :
      (i : ℕ) (es : List (Entry V)) (n : Node V)
      → deref i es ≡ some n
      → sum es ≡ sum (erase i es) + n.value_size
  sum-erase i [] n h = cc
  sum-erase i (e ∷ es) n h = ground (arith, sum-erase i es n)

  pub sum-pop_back :
      (e : Entry V) (es : List (Entry V))
      → sum (e ∷ es) ≡ sum (pop_back e es) + (back e es).node.value_size
  sum-pop_back e [] = omega arith
  sum-pop_back e (f ∷ es) = omega (arith, sum-pop_back f es)

-- Taking a part off the sum.
pub minus_part :
    (whole rest part : ℕ) → whole ≡ rest + part → minus (whole % 2 ^ 64) part ≡ rest % 2 ^ 64
minus_part whole rest part e = omega arith
