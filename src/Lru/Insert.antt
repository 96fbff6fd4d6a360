-- ===== src/Lru/Insert.antt =====
-- include/xfutil/lru_cache.h: `Add` against the map from keys to values that the cache is.
use xfutil.Base.{
  ◌⊎◌, ℕ, suc, ◌+◌, ◌%◌, ◌^◌, ◌≤◌, ◌≡◌, ◌≢◌, refl, ap, sym, ◌∙◌, arith, Bool, inl, inr, false, not,
  ◌&&◌, ltb, ◌==◌, if◌then◌else◌, List, [], ◌∷◌, Option, none, some, length,
}
use xfutil.Lru.{Entry, LruCache, is_empty, reserve_cold_loop, reserve_cold, add_at, add}
use xfutil.Lru.Linked.{none-ne-some, Linked-remove}
use xfutil.Lru.View.{find, find_at, value_of, or_else, lookup, find-push}
use xfutil.Lru.Valid.{IsValid, add_at-IsValid}
use xfutil.Lru.Evict.{
  IsEvicted, less_trans, reserve_cold_loop-IsShrunk, is_over, reserve_cold_loop-fits,
}

module _ {V : Type 0} where
  some-lookup : (hot cold : Option V) (x : V) → cold ≡ some x → or_else hot cold ≡ none → ⊥
  some-lookup none cold x h e = none-ne-some (sym e ∙ h)
  some-lookup (some y) cold x h e = none-ne-some (sym e)

  absent-none :
      (c : LruCache V) (k : ℕ) (at : Option ℕ)
      → IsValid c
      → c.cold_map k ≡ at
      → lookup c k ≡ none
      → at ≡ none
  absent-none c k none v h absent = refl
  absent-none c k (some i) v h absent =
      let (below, n, found, key) = v.cold k i h in
      absurd
        (some-lookup _ _ n.value (ap (λ p. find_at p c.cold_list) h ∙ ap value_of found) absent)

  hot-none : (hot cold : Option V) → or_else hot cold ≡ none → hot ≡ none
  hot-none none cold h = refl
  hot-none (some x) cold h = absurd (none-ne-some (sym h))

  added :
      (hot cold : Option V) (b : Bool) (x : V)
      → b ≡ false
      → or_else hot (if b then some x else cold) ≡ or_else hot cold
  added hot cold b x h = rw h refl

  pushed-lookup :
      (c : LruCache V) (k : ℕ) (x : V) (value_size q : ℕ)
      → IsValid c
      → lookup (add_at c k x value_size none) q
        ≡ or_else
            (find c.hot_map c.hot_list q)
            (if q == k then some x else find c.cold_map c.cold_list q)
  pushed-lookup c k x value_size q v = ap (or_else (find c.hot_map c.hot_list q)) (
      find-push c.next_id c.cold_list c.cold_map
        (record { key = k; value = x; value_size = value_size }) q
        (Linked-remove c.next_id c.cold_list c.cold_map k v.cold))

  add_at-keeps :
      (c : LruCache V) (k : ℕ) (x : V) (value_size q : ℕ) (at : Option ℕ)
      → IsValid c
      → q ≢ k
      → lookup (add_at c k x value_size at) q ≡ lookup c q
  add_at-keeps c k x value_size q none v other =
      pushed-lookup c k x value_size q v
      ∙ added (find c.hot_map c.hot_list q) (find c.cold_map c.cold_list q) (q == k) x
          (ground arith)
  add_at-keeps c k x value_size q (some i) v other = refl

  -- In a valid cache, `Add` of a key leaves a valid cache in which every other key has the value it
  -- had, or was removed to make room: with some nodes gone from the back of the cold list, the size with
  -- the new value was still over the maximum, and the key's node was the last.
  pub add-keeps :
      (c : LruCache V) (k : ℕ) (x : V) (value_size q : ℕ)
      → IsValid c
      → q ≢ k
      → IsValid (add c k x value_size)
        × ((lookup (add c k x value_size) q ≡ lookup c q)
            ⊎ ((lookup (add c k x value_size) q ≡ none) × IsEvicted c value_size q))
  unfolding add reserve_cold
  add-keeps c k x value_size q v other =
      let r = reserve_cold_loop (length c.cold_list) value_size c in
      let shrunk = reserve_cold_loop-IsShrunk (length c.cold_list) value_size c v in
      (
        add_at-IsValid r k x value_size _ shrunk.valid,
        less_trans {X = IsEvicted c value_size q} {Y = ⊥} _ _ _ (λ w. absurd w) (λ w. w)
            (inl (add_at-keeps r k x value_size q _ shrunk.valid other)) (shrunk.less q),
      )

  shrunk-none : {X : Type 0} (a b : Option V) → a ≡ none → (b ≡ a) ⊎ ((b ≡ none) × X) → b ≡ none
  shrunk-none a b h (inl e) = e ∙ h
  shrunk-none a b h (inr (e, x)) = e

  -- The list is empty, or the size is within the maximum: the new node is alone, or fits.
  room :
      (es : List (Entry V)) (max total : ℕ)
      → (not (is_empty es) && ltb max total) ≡ false
      → (length es ≡ 0) ⊎ (total ≤ max)
  room [] max total h = inl refl
  room (e ∷ es) max total h = inr (ground arith)

  add_at-lookup :
      (c : LruCache V) (k : ℕ) (x : V) (value_size : ℕ) (at : Option ℕ)
      → IsValid c
      → c.cold_map k ≡ at
      → lookup c k ≡ none
      → is_over c value_size ≡ false
      → (lookup (add_at c k x value_size at) k ≡ some x)
        × ((length (add_at c k x value_size at).cold_list ≡ 1)
            ⊎ ((add_at c k x value_size at).cold_size ≤ (add_at c k x value_size at).max_cold_size))
  add_at-lookup c k x value_size (some i) v h absent fits =
      absurd (none-ne-some (sym (absent-none c k (some i) v h absent)))
  add_at-lookup c k x value_size none v h absent fits = (
    pushed-lookup c k x value_size k v
        ∙ ap (λ hot. or_else hot (if k == k then some x else find c.cold_map c.cold_list k))
            (hot-none _ _ absent)
        ∙ ground arith,
    elim (room c.cold_list c.max_cold_size ((c.cold_size + value_size) % 2 ^ 64) fits) [
      | inl alone ↦ inl (ap suc alone)
      | inr within ↦ inr within
    ],
  )

  -- In a valid cache that has no value for a key, `Add` gives the key its value, and the new node is
  -- then alone in the cold list, or the size of the cold list is within its maximum.
  pub add-lookup :
      (c : LruCache V) (k : ℕ) (x : V) (value_size : ℕ)
      → IsValid c
      → lookup c k ≡ none
      → (lookup (add c k x value_size) k ≡ some x)
        × ((length (add c k x value_size).cold_list ≡ 1)
            ⊎ ((add c k x value_size).cold_size ≤ (add c k x value_size).max_cold_size))
  unfolding add reserve_cold
  add-lookup c k x value_size v absent =
      let shrunk = reserve_cold_loop-IsShrunk (length c.cold_list) value_size c v in
      add_at-lookup (reserve_cold_loop (length c.cold_list) value_size c) k x value_size _
        shrunk.valid refl (shrunk-none _ _ absent (shrunk.less k))
        (reserve_cold_loop-fits (length c.cold_list) value_size c (omega arith))
