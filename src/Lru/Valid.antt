-- ===== src/Lru/Valid.antt =====
-- include/xfutil/lru_cache.h: what holds of the cache between two calls.
use xfutil.Base.{ℕ, ◌%◌, ◌^◌, ◌≡◌, refl, ap, subst, ◌∙◌, arith, List, [], ◌∷◌, Option, none, some}
use xfutil.Lru.{Entry, minus, LruCache, pop_back, back, new, drop_last, add_at}
use xfutil.Lru.Linked.{
  none-ne-some, Linked, Linked-push, Linked-remove, Linked-weaken, Linked-pop_back,
}
use xfutil.Lru.Owned.{Owned, Owned-weaken}
use xfutil.Lru.Sizes.{sum, sum-pop_back, minus_part}

module _ {V : Type 0} where
  -- The iterators of both maps point to nodes with the right keys, the hot map leads to each node of
  -- the hot list, and the size of the cold list is the sum of the sizes of its nodes.
  pub record IsValid (c : LruCache V) : Type 0 where
    pub hot : Linked c.next_id c.hot_list c.hot_map
    pub hot_owned : Owned c.next_id c.hot_list c.hot_map
    pub cold : Linked c.next_id c.cold_list c.cold_map
    pub cold_sum : c.cold_size ≡ sum c.cold_list % 2 ^ 64

  pub new-IsValid :
      (hot_part : ℕ → ℕ) (max_size : ℕ) → (let c : LruCache V = new hot_part max_size in IsValid c)
  unfolding new
  new-IsValid hot_part max_size = record {
    hot = λ k i e. absurd (none-ne-some e);
    hot_owned = record { fresh = tt; owner = λ i n e. absurd (none-ne-some e) };
    cold = λ k i e. absurd (none-ne-some e);
    cold_sum = refl;
  }

  pub drop_last-IsValid :
      (c : LruCache V) (es : List (Entry V))
      → c.cold_list ≡ es
      → IsValid c
      → IsValid (drop_last c es)
  drop_last-IsValid c [] h v = v
  drop_last-IsValid c (e ∷ es) h v = record {
    hot = v.hot;
    hot_owned = v.hot_owned;
    cold =
        Linked-pop_back c.next_id e es c.cold_map
          (subst (λ xs. Linked c.next_id xs c.cold_map) h v.cold);
    cold_sum =
        ap (λ (s : ℕ). minus s (back e es).node.value_size)
          (v.cold_sum ∙ ap (λ xs. sum xs % 2 ^ 64) h)
        ∙ minus_part (sum (e ∷ es)) (sum (pop_back e es)) _ (sum-pop_back e es);
  }

  pub add_at-IsValid :
      (c : LruCache V) (k : ℕ) (x : V) (value_size : ℕ) (at : Option ℕ)
      → IsValid c
      → IsValid (add_at c k x value_size at)
  add_at-IsValid c k x value_size none v = record {
    hot = Linked-weaken c.next_id c.hot_list c.hot_map v.hot;
    hot_owned = Owned-weaken c.next_id c.hot_list c.hot_map v.hot_owned;
    cold =
        Linked-push c.next_id c.cold_list c.cold_map
          (record { key = k; value = x; value_size = value_size })
          (Linked-remove c.next_id c.cold_list c.cold_map k v.cold);
    cold_sum = omega (arith, v.cold_sum);
  }
  add_at-IsValid c k x value_size (some i) v = v
