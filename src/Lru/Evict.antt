-- ===== src/Lru/Evict.antt =====
-- include/xfutil/lru_cache.h: which entries `ReserveColdList` removes.
use xfutil.Base.{
  ◌⊎◌, ℕ, zero, suc, ◌+◌, ◌%◌, ◌^◌, ◌≤◌, ◌<◌, ◌≡◌, refl, ap, sym, subst, ◌∙◌, arith, Bool,
  Bool-cases, inl, inr, true, false, not, ◌&&◌, ltb, ◌==◌, if◌then◌else◌, List, [], ◌∷◌, Option,
  none, some, length,
}
use xfutil.Lru.{Entry, LruCache, pop_back, back, is_empty, drop_last, reserve_cold_loop}
use xfutil.Lru.Linked.{Linked}
use xfutil.Lru.View.{find, or_else, lookup, find-pop_back}
use xfutil.Lru.Valid.{IsValid, drop_last-IsValid}

module _ {V : Type 0} where
  -- The cache when this many nodes have been removed at the back of the cold list.
  abbrev pub without_last : ℕ → LruCache V → LruCache V
  without_last zero c = c
  without_last (suc n) c = without_last n (drop_last c c.cold_list)

  abbrev pub last_key : List (Entry V) → Option ℕ
  last_key [] = none
  last_key (e ∷ es) = some (back e es).node.key

  -- Once some nodes had been removed at the back, the size with the new value was still over the
  -- maximum, and this key's node was the last.
  pub record IsEvicted (c : LruCache V) (value_size q : ℕ) : Type 0 where
    pub removed : ℕ
    pub over :
        (without_last removed c).max_cold_size
        < ((without_last removed c).cold_size + value_size) % 2 ^ 64
    pub last : last_key (without_last removed c).cold_list ≡ some q

  -- A key keeps its value, or loses it because it had to be removed.
  pub record IsShrunk (c d : LruCache V) (value_size : ℕ) : Type 0 where
    pub valid : IsValid d
    pub less :
        (q : ℕ) → (lookup d q ≡ lookup c q) ⊎ ((lookup d q ≡ none) × IsEvicted c value_size q)

  dropped :
      (hot cold : Option V) (b : Bool)
      → (or_else hot (if b then none else cold) ≡ or_else hot cold)
        ⊎ ((or_else hot (if b then none else cold) ≡ none) × (b ≡ true))
  dropped (some x) cold b = inl refl
  dropped none cold true = inr (refl, refl)
  dropped none cold false = inl refl

  drop_last-lookup :
      (c : LruCache V) (e : Entry V) (es : List (Entry V)) (q : ℕ)
      → c.cold_list ≡ e ∷ es
      → IsValid c
      → (lookup (drop_last c (e ∷ es)) q ≡ lookup c q)
        ⊎ ((lookup (drop_last c (e ∷ es)) q ≡ none) × ((q == (back e es).node.key) ≡ true))
  drop_last-lookup c e es q h v =
      let linked = subst (λ xs. Linked c.next_id xs c.cold_map) h v.cold in
      subst
        (λ cold.
          (or_else (find c.hot_map c.hot_list q) cold ≡ lookup c q)
          ⊎ ((or_else (find c.hot_map c.hot_list q) cold ≡ none)
              × ((q == (back e es).node.key) ≡ true)))
        (sym (
          find-pop_back c.next_id e es c.cold_map q linked
          ∙ ap (λ xs. if q == (back e es).node.key then none else find c.cold_map xs q) (sym h)))
        (dropped (find c.hot_map c.hot_list q) (find c.cold_map c.cold_list q)
          (q == (back e es).node.key))

  over-lt :
      (es : List (Entry V)) (max total : ℕ)
      → (not (is_empty es) && ltb max total) ≡ true
      → max < total
  over-lt [] max total h = absurd (ground arith)
  over-lt (e ∷ es) max total h = ground arith

  drop_last-less :
      (c : LruCache V) (es : List (Entry V)) (value_size q : ℕ)
      → c.cold_list ≡ es
      → (not (is_empty es) && ltb c.max_cold_size ((c.cold_size + value_size) % 2 ^ 64)) ≡ true
      → IsValid c
      → (lookup (drop_last c es) q ≡ lookup c q)
        ⊎ ((lookup (drop_last c es) q ≡ none) × IsEvicted c value_size q)
  drop_last-less c [] value_size q h over v = inl refl
  drop_last-less c (e ∷ es) value_size q h over v = elim (drop_last-lookup c e es q h v) [
    | inl same ↦ inl same
    | inr (lost, is_last) ↦
        let key : (back e es).node.key ≡ q = ground arith in
        inr (
          lost,
          record {
            removed = 0;
            over = over-lt (e ∷ es) _ _ over;
            last = ap last_key h ∙ ap some key;
          },
        )
  ]

  IsEvicted-later :
      (c : LruCache V) (value_size q : ℕ)
      → IsEvicted (drop_last c c.cold_list) value_size q
      → IsEvicted c value_size q
  IsEvicted-later c value_size q v = record {
    removed = suc v.removed;
    over = v.over;
    last = v.last;
  }

  pub less_trans :
      {X Y Z : Type 0} (a b c : Option V)
      → (Y → Z)
      → (X → Z)
      → (c ≡ b) ⊎ ((c ≡ none) × Y)
      → (b ≡ a) ⊎ ((b ≡ none) × X)
      → (c ≡ a) ⊎ ((c ≡ none) × Z)
  less_trans a b c f g (inl p) (inl q) = inl (p ∙ q)
  less_trans a b c f g (inl p) (inr (q, x)) = inr (p ∙ q, g x)
  less_trans a b c f g (inr (p, y)) r = inr (p, f y)

  pub reserve_cold_loop-IsShrunk :
      (rounds value_size : ℕ) (c : LruCache V)
      → IsValid c
      → IsShrunk c (reserve_cold_loop rounds value_size c) value_size
  unfolding reserve_cold_loop
  reserve_cold_loop-IsShrunk zero value_size c v = record { valid = v; less = λ q. inl refl }
  reserve_cold_loop-IsShrunk (suc rounds) value_size c v =
      elim (Bool-cases
        (not (is_empty c.cold_list) && ltb c.max_cold_size ((c.cold_size + value_size) % 2 ^ 64))) [
          | inl over ↦
              let more =
                reserve_cold_loop-IsShrunk rounds value_size (drop_last c c.cold_list)
                  (drop_last-IsValid c c.cold_list refl v) in
              rw over (record {
                valid = more.valid;
                less = λ q.
                    less_trans _ _ _ (IsEvicted-later c value_size q) (λ x. x) (more.less q)
                      (drop_last-less c c.cold_list value_size q refl over v);
              })
          | inr fits ↦ rw fits (record { valid = v; less = λ q. inl refl })
        ]

  length-pop_back : (e : Entry V) (es : List (Entry V)) → length (pop_back e es) ≡ length es
  length-pop_back e [] = refl
  length-pop_back e (f ∷ es) = ap suc (length-pop_back f es)

  length-drop_last :
      (rounds : ℕ) (c : LruCache V) (es : List (Entry V))
      → c.cold_list ≡ es
      → length es ≤ suc rounds
      → length (drop_last c es).cold_list ≤ rounds
  length-drop_last rounds c [] h enough = rw h (omega arith)
  length-drop_last rounds c (e ∷ es) h enough = omega (arith, length-pop_back e es)

  empty-is_empty :
      (es : List (Entry V)) (b : Bool) → length es ≤ 0 → (not (is_empty es) && b) ≡ false
  empty-is_empty [] b h = refl
  empty-is_empty (e ∷ es) b h = absurd (omega arith)

  -- The condition of the loop.
  abbrev pub is_over : LruCache V → ℕ → Bool
  is_over c value_size =
      not (is_empty c.cold_list) && ltb c.max_cold_size ((c.cold_size + value_size) % 2 ^ 64)

  -- One round for each node is enough.
  pub reserve_cold_loop-fits :
      (rounds value_size : ℕ) (c : LruCache V)
      → length c.cold_list ≤ rounds
      → is_over (reserve_cold_loop rounds value_size c) value_size ≡ false
  unfolding reserve_cold_loop
  reserve_cold_loop-fits zero value_size c enough = empty-is_empty c.cold_list _ enough
  reserve_cold_loop-fits (suc rounds) value_size c enough =
      elim (Bool-cases (is_over c value_size)) [
        | inl over ↦ rw over (
            reserve_cold_loop-fits rounds value_size (drop_last c c.cold_list)
              (length-drop_last rounds c c.cold_list refl enough))
        | inr fits ↦ rw (fits, fits) refl
      ]
