-- ===== src/Lru/Delete.antt =====
-- include/xfutil/lru_cache.h: `Delete` against the map from keys to values that the cache is.
use xfutil.Base.{
  ℕ, ◌≡◌, refl, ap, ◌∙◌, arith, Bool, Bool-cases, inl, inr, true, false, ◌==◌, if◌then◌else◌,
  Option, none, some,
}
use xfutil.Lru.{remove, minus, LruCache, erase, delete_at, delete}
use xfutil.Lru.Linked.{Linked-erase}
use xfutil.Lru.Owned.{Owned-erase}
use xfutil.Lru.View.{find, find_at, value_of, or_else, lookup, find-erase}
use xfutil.Lru.Valid.{IsValid}
use xfutil.Lru.Lookup.{take_cold-IsValid}

module _ {V : Type 0} where
  abbrev pub is_some : Option V → Bool
  is_some none = false
  is_some (some x) = true

  -- What a key has after `Delete`: the value in the cold list, when the hot list had one too.
  abbrev pub left_after : Option V → Option V → Option V
  left_after none cold = none
  left_after (some x) cold = cold

  -- The key goes from the hot map, or from the cold map when the hot map does not have it.
  deleted_hot :
      (hot cold : ℕ → Option V) (left : Option V) (k q : ℕ) (x : V)
      → left ≡ (if q == k then none else hot q)
      → hot k ≡ some x
      → or_else left (cold q)
        ≡ (if q == k then left_after (hot k) (cold k) else or_else (hot q) (cold q))
  deleted_hot hot cold left k q x is_left value = elim (Bool-cases (q == k)) [
    | inl same ↦ rw (is_left, same, value) (ap cold (ground arith))
    | inr other ↦ rw (is_left, other) refl
  ]

  deleted_cold :
      (hot cold : ℕ → Option V) (left : Option V) (k q : ℕ)
      → left ≡ (if q == k then none else cold q)
      → hot k ≡ none
      → or_else (hot q) left
        ≡ (if q == k then left_after (hot k) (cold k) else or_else (hot q) (cold q))
  deleted_cold hot cold left k q is_left value = elim (Bool-cases (q == k)) [
    | inl same ↦
        let here : hot q ≡ none = ap hot (ground arith) ∙ value in
        rw (is_left, same, here, value) refl
    | inr other ↦ rw (is_left, other) refl
  ]

  absent_anyway :
      (view : ℕ → Option V) (k q : ℕ) → view k ≡ none → view q ≡ (if q == k then none else view q)
  absent_anyway view k q h = elim (Bool-cases (q == k)) [
    | inl same ↦ rw same (ap view (ground arith) ∙ h)
    | inr other ↦ rw other refl
  ]

  -- What `Delete` promises of the cache it leaves.
  pub record IsWithout (c : LruCache V) (k : ℕ) (d : LruCache V) : Type 0 where
    pub valid : IsValid d
    pub values :
        (q : ℕ)
        → lookup d q ≡ (
            if q == k
            then left_after (find c.hot_map c.hot_list k) (find c.cold_map c.cold_list k)
            else lookup c q)

  delete_at-IsWithout :
      (c : LruCache V) (k : ℕ) (h o : Option ℕ)
      → IsValid c
      → c.hot_map k ≡ h
      → c.cold_map k ≡ o
      → (d : LruCache V) × (delete_at c k h o
          ≡ some (d, is_some (or_else (find_at h c.hot_list) (find_at o c.cold_list))))
        × IsWithout c k d
  delete_at-IsWithout c k (some i) o v at other =
      let (below, n, found, key) = v.hot k i at in
      (
        record c {
          hot_size = minus c.hot_size n.value_size;
          hot_list = erase i c.hot_list;
          hot_map = remove c.hot_map k;
        },
        rw found refl,
        record {
          valid = record {
            hot = Linked-erase c.next_id c.hot_list c.hot_map k i v.hot at;
            hot_owned = Owned-erase c.next_id c.hot_list c.hot_map k i v.hot_owned at;
            cold = v.cold;
            cold_sum = v.cold_sum;
          };
          values = λ q.
              deleted_hot (find c.hot_map c.hot_list) (find c.cold_map c.cold_list) _ k q n.value
                (find-erase c.next_id c.hot_list c.hot_map k i q v.hot at)
                (ap (λ p. find_at p c.hot_list) at ∙ ap value_of found);
        },
      )
  delete_at-IsWithout c k none (some i) v at other =
      let (below, n, found, key) = v.cold k i other in
      (
        record c {
          cold_size = minus c.cold_size n.value_size;
          cold_list = erase i c.cold_list;
          cold_map = remove c.cold_map k;
        },
        rw found refl,
        record {
          valid = take_cold-IsValid c k i c.hit_count n v other found;
          values = λ q.
              deleted_cold (find c.hot_map c.hot_list) (find c.cold_map c.cold_list) _ k q
                (find-erase c.next_id c.cold_list c.cold_map k i q v.cold other)
                (ap (λ p. find_at p c.hot_list) at);
        },
      )
  delete_at-IsWithout c k none none v at other = (
    c,
    refl,
    record {
      valid = v;
      values = λ q.
          deleted_cold (find c.hot_map c.hot_list) (find c.cold_map c.cold_list) _ k q
            (absent_anyway (find c.cold_map c.cold_list) k q
              (ap (λ p. find_at p c.cold_list) other))
            (ap (λ p. find_at p c.hot_list) at);
    },
  )

  -- In a valid cache, `Delete` of any key reads through no iterator whose node is gone, reports
  -- whether the cache had a value for it, and leaves a valid cache in which the other keys have the
  -- values they had. The key itself has the value of the cold list, if both lists had one, and none
  -- otherwise.
  pub delete-lookup :
      (c : LruCache V) (k : ℕ)
      → IsValid c
      → (d : LruCache V) × (delete c k ≡ some (d, is_some (lookup c k))) × IsWithout c k d
  unfolding delete
  delete-lookup c k v = delete_at-IsWithout c k _ _ v refl refl
