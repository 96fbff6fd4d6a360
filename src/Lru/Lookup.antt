-- ===== src/Lru/Lookup.antt =====
-- include/xfutil/lru_cache.h: `Get` against the map from keys to values that the cache is.
use xfutil.Base.{
  ℕ, ◌+◌, ◌%◌, ◌^◌, ◌≡◌, refl, ap, sym, subst, ◌∙◌, arith, Bool-cases, inl, inr, ◌==◌,
  if◌then◌else◌, Option, none, some,
}
use xfutil.Lru.{
  Node, remove, minus, LruCache, deref, erase, push_hot, touch_hot, warm, get_cold, get_hot, get,
}
use xfutil.Lru.Linked.{Linked-push, Linked-remove, Linked-weaken, Linked-erase}
use xfutil.Lru.Owned.{Owned-push, Owned-absent, Owned-erase}
use xfutil.Lru.View.{find, find_at, value_of, or_else, lookup, find-push, find-erase}
use xfutil.Lru.Sizes.{sum, sum-erase, minus_part}
use xfutil.Lru.Valid.{IsValid}
use xfutil.Lru.Cool.{find-replaced, reserve_hot-IsCooled, IsCooled}

module _ {V : Type 0} where
  -- A valid cache with the same values.
  pub record IsSame (c d : LruCache V) : Type 0 where
    pub valid : IsValid d
    pub same : (q : ℕ) → lookup d q ≡ lookup c q

  -- Setting a key to the value it has.
  known :
      (found : ℕ → Option V) (k q : ℕ) (x : V)
      → found k ≡ some x
      → (if q == k then some x else found q) ≡ found q
  known found k q x h = elim (Bool-cases (q == k)) [
    | inl same ↦ rw same (sym h ∙ ap found (ground arith))
    | inr other ↦ rw other refl
  ]

  touched-IsSame :
      (c : LruCache V) (i hits : ℕ) (n : Node V)
      → IsValid c
      → c.hot_map n.key ≡ some i
      → deref i c.hot_list ≡ some n
      → IsSame c (push_hot (record c { hit_count = hits; hot_list = erase i c.hot_list }) n.key n)
  touched-IsSame c i hits n v at found =
      let erased = Linked-erase c.next_id c.hot_list c.hot_map n.key i v.hot at in
      record {
        valid = record {
          hot = Linked-push c.next_id (erase i c.hot_list) c.hot_map n erased;
          hot_owned =
              Owned-push c.next_id (erase i c.hot_list) c.hot_map n
                (Owned-erase c.next_id c.hot_list c.hot_map n.key i v.hot_owned at);
          cold = Linked-weaken c.next_id c.cold_list c.cold_map v.cold;
          cold_sum = v.cold_sum;
        };
        same = λ q.
            ap (λ hot. or_else hot (find c.cold_map c.cold_list q))
              (find-push c.next_id (erase i c.hot_list) c.hot_map n q erased
                ∙ find-replaced c.next_id c.hot_list c.hot_map n i q v.hot at
                ∙ known (find c.hot_map c.hot_list) n.key q n.value
                    (ap (λ p. find_at p c.hot_list) at ∙ ap value_of found));
      }

  touch_hot-IsSame :
      (c : LruCache V) (k i : ℕ) (b : Option V)
      → IsValid c
      → c.hot_map k ≡ some i
      → (d : LruCache V) × (touch_hot c k i (deref i c.hot_list)
          ≡ some (d, or_else (find_at (some i) c.hot_list) b))
        × IsSame c d
  touch_hot-IsSame c k i b v at =
      let (below, node, found, key) = v.hot k i at in
      let hits = (c.hit_count + 1) % 2 ^ 64 in
      let taken = record c { hit_count = hits; hot_list = erase i c.hot_list } in
      (
        push_hot taken k node,
        rw found refl,
        subst (λ q. IsSame c (push_hot taken q node)) key
            (touched-IsSame c i hits node v (ap c.hot_map key ∙ at) found),
      )

  -- What is left of a valid cache when a node of the cold list is taken out.
  pub take_cold-IsValid :
      (c : LruCache V) (k i hits : ℕ) (node : Node V)
      → IsValid c
      → c.cold_map k ≡ some i
      → deref i c.cold_list ≡ some node
      → IsValid (record c {
        hit_count = hits;
        cold_size = minus c.cold_size node.value_size;
        cold_list = erase i c.cold_list;
        cold_map = remove c.cold_map k;
      })
  take_cold-IsValid c k i hits node v at found = record {
    hot = v.hot;
    hot_owned = v.hot_owned;
    cold = Linked-erase c.next_id c.cold_list c.cold_map k i v.cold at;
    cold_sum =
        ap (λ (s : ℕ). minus s node.value_size) v.cold_sum
        ∙ minus_part (sum c.cold_list) (sum (erase i c.cold_list)) node.value_size
            (sum-erase i c.cold_list node found);
  }

  -- The node of a key that the hot map does not have is put in front of the hot list.
  push_hot-IsValid :
      (c : LruCache V) (n : Node V)
      → IsValid c
      → c.hot_map n.key ≡ none
      → IsValid (push_hot c n.key n)
  push_hot-IsValid c n v absent = record {
    hot =
        Linked-push c.next_id c.hot_list c.hot_map n
          (Linked-remove c.next_id c.hot_list c.hot_map n.key v.hot);
    hot_owned =
        Owned-push c.next_id c.hot_list c.hot_map n
          (Owned-absent c.next_id c.hot_list c.hot_map n.key v.hot_owned absent);
    cold = Linked-weaken c.next_id c.cold_list c.cold_map v.cold;
    cold_sum = v.cold_sum;
  }

  push_hot-lookup :
      (c : LruCache V) (n : Node V) (q : ℕ)
      → IsValid c
      → lookup (push_hot c n.key n) q ≡ (if q == n.key then some n.value else lookup c q)
  push_hot-lookup c n q v =
      let pushed =
        find-push c.next_id c.hot_list c.hot_map n q
          (Linked-remove c.next_id c.hot_list c.hot_map n.key v.hot) in
      elim (Bool-cases (q == n.key)) [
        | inl same ↦ rw (pushed, same) refl
        | inr other ↦ rw (pushed, other) refl
      ]

  -- The cold list has lost the key, which then has its value again.
  warmed :
      (hot : Option V) (cold : ℕ → Option V) (left : Option V) (k q : ℕ) (x : V)
      → (q ≡ k → hot ≡ none)
      → left ≡ (if q == k then none else cold q)
      → cold k ≡ some x
      → (if q == k then some x else or_else hot left) ≡ or_else hot (cold q)
  warmed hot cold left k q x absent is_left value = elim (Bool-cases (q == k)) [
    | inl same ↦
        let is_k : q ≡ k = ground arith in rw (same, absent is_k) (sym value ∙ ap cold (sym is_k))
    | inr other ↦ rw (is_left, other) refl
  ]

  warmed-IsSame :
      (c d : LruCache V) (i hits : ℕ) (n : Node V)
      → IsValid c
      → c.hot_map n.key ≡ none
      → c.cold_map n.key ≡ some i
      → deref i c.cold_list ≡ some n
      → IsCooled
          (record c {
            hit_count = hits;
            cold_size = minus c.cold_size n.value_size;
            cold_list = erase i c.cold_list;
            cold_map = remove c.cold_map n.key;
          })
          d
      → IsSame c (push_hot d n.key n)
  warmed-IsSame c d i hits n v absent at found r = record {
    valid = push_hot-IsValid d n r.valid (r.absent n.key absent);
    same = λ q.
        push_hot-lookup d n q r.valid
        ∙ ap (λ old. if q == n.key then some n.value else old) (r.same q)
        ∙ warmed (find c.hot_map c.hot_list q) (find c.cold_map c.cold_list) _ n.key q n.value
            (λ same. ap (λ p. find_at p c.hot_list) (ap c.hot_map same ∙ absent))
            (find-erase c.next_id c.cold_list c.cold_map n.key i q v.cold at)
            (ap (λ p. find_at p c.cold_list) at ∙ ap value_of found);
  }

  warm_node-IsSame :
      (c : LruCache V) (i : ℕ) (n : Node V)
      → IsValid c
      → c.hot_map n.key ≡ none
      → c.cold_map n.key ≡ some i
      → deref i c.cold_list ≡ some n
      → (d : LruCache V) × (warm c n.key i (some n) ≡ some (d, some n.value)) × IsSame c d
  warm_node-IsSame c i n v absent at found =
      let hits = (c.hit_count + 1) % 2 ^ 64 in
      let (d, reserved, r) =
        reserve_hot-IsCooled
          (record c {
            hit_count = hits;
            cold_size = minus c.cold_size n.value_size;
            cold_list = erase i c.cold_list;
            cold_map = remove c.cold_map n.key;
          })
          n.value_size (take_cold-IsValid c n.key i hits n v at found) in
      (push_hot d n.key n, rw reserved refl, warmed-IsSame c d i hits n v absent at found r)

  warm-IsSame :
      (c : LruCache V) (k i : ℕ)
      → IsValid c
      → c.hot_map k ≡ none
      → c.cold_map k ≡ some i
      → (d : LruCache V) × (warm c k i (deref i c.cold_list)
          ≡ some (d, find_at (some i) c.cold_list))
        × IsSame c d
  warm-IsSame c k i v absent at =
      let (below, n, found, key) = v.cold k i at in
      let (d, warms, r) =
        subst (λ q. (d : LruCache V) × (warm c q i (some n) ≡ some (d, some n.value)) × IsSame c d)
          key
          (warm_node-IsSame c i n v (ap c.hot_map key ∙ absent) (ap c.cold_map key ∙ at) found) in
      (d, subst (λ o. warm c k i o ≡ some (d, value_of o)) (sym found) warms, r)

  get_cold-IsSame :
      (c : LruCache V) (k : ℕ) (at : Option ℕ)
      → IsValid c
      → c.hot_map k ≡ none
      → c.cold_map k ≡ at
      → (d : LruCache V) × (get_cold c k at ≡ some (d, find_at at c.cold_list)) × IsSame c d
  get_cold-IsSame c k none v absent at = (
    record c { miss_count = (c.miss_count + 1) % 2 ^ 64 },
    refl,
    record {
      valid = record { hot = v.hot; hot_owned = v.hot_owned; cold = v.cold; cold_sum = v.cold_sum };
      same = λ q. refl;
    },
  )
  get_cold-IsSame c k (some i) v absent at = warm-IsSame c k i v absent at

  get_hot-IsSame :
      (c : LruCache V) (k : ℕ) (at : Option ℕ)
      → IsValid c
      → c.hot_map k ≡ at
      → (d : LruCache V) × (get_hot c k at
          ≡ some (d, or_else (find_at at c.hot_list) (find c.cold_map c.cold_list k)))
        × IsSame c d
  get_hot-IsSame c k none v at = get_cold-IsSame c k _ v at refl
  get_hot-IsSame c k (some i) v at = touch_hot-IsSame c k i _ v at

  -- In a valid cache, `Get` of any key ends, reads through no iterator whose node is gone, gives the
  -- value the cache has for the key or none if it has none, and leaves a valid cache in which every
  -- key has the value it had.
  pub get-lookup :
      (c : LruCache V) (k : ℕ)
      → IsValid c
      → (d : LruCache V) × (get c k ≡ some (d, lookup c k))
        × IsValid d
        × ((q : ℕ) → lookup d q ≡ lookup c q)
  unfolding get
  get-lookup c k v = let (d, got, r) = get_hot-IsSame c k _ v refl in (d, got, r.valid, r.same)
