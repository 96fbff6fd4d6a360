-- ===== src/Lru/Cool.antt =====
-- include/xfutil/lru_cache.h: `ReserveHotList` keeps the cache valid and reads through no iterator
-- whose node is gone.
use xfutil.Base.{
  ℕ, zero, suc, ◌+◌, ◌%◌, ◌^◌, ◌<◌, ◌≡◌, refl, ap, sym, subst, ◌∙◌, arith, Bool-cases, inl, inr,
  not, ◌&&◌, ltb, ◌==◌, if◌then◌else◌, List, [], ◌∷◌, Option, none, some, length,
}
use xfutil.Lru.{
  Node, Entry, Index, put, remove, minus, LruCache, deref, erase, pop_back, back, is_empty,
  replace_cold, link_cold, cool_last, reserve_hot_loop, reserve_hot,
}
use xfutil.Lru.Linked.{
  differ, Linked, Linked-push, Linked-remove, Linked-weaken, Linked-erase, Linked-pop_back,
}
use xfutil.Lru.Owned.{Owned, Owned-weaken, Owned-pop_back}
use xfutil.Lru.View.{find, or_else, lookup, find-push, find_at-erase, find-pop_back, find-back}
use xfutil.Lru.Sizes.{sum, sum-erase, minus_part}
use xfutil.Lru.Valid.{IsValid}

remove-absent : (m : Index) (k q : ℕ) → m q ≡ none → remove m k q ≡ none
remove-absent m k q h = ground arith

module _ {V : Type 0} where
  -- A node that was not made last is behind the front.
  deref-front :
      (next i : ℕ) (n : Node V) (es : List (Entry V))
      → i < next
      → deref i (record { id = next; node = n } ∷ es) ≡ deref i es
  deref-front next i n es old = ground arith

  erase-front :
      (next i : ℕ) (n : Node V) (es : List (Entry V))
      → i < next
      → erase i (record { id = next; node = n } ∷ es) ≡ record { id = next; node = n } ∷ erase i es
  erase-front next i n es old = ground arith

  pub find-replaced :
      (next : ℕ) (es : List (Entry V)) (m : Index) (n : Node V) (old q : ℕ)
      → Linked next es m
      → m n.key ≡ some old
      → (if q == n.key then some n.value else find m (erase old es) q)
        ≡ (if q == n.key then some n.value else find m es q)
  find-replaced next es m n old q l at = elim (Bool-cases (q == n.key)) [
    | inl same ↦ rw same refl
    | inr other ↦ rw other (find_at-erase next es m n.key old q _ l at refl (differ q n.key other))
  ]

  -- The hot list has lost its last node, and the cold list has it in front, not yet in the cold map.
  record Moved (c : LruCache V) (next : ℕ) (n : Node V) (cold : List (Entry V)) : Type 0 where
    pub next_is : c.next_id ≡ suc next
    pub hot : Linked (suc next) c.hot_list c.hot_map
    pub hot_owned : Owned (suc next) c.hot_list c.hot_map
    pub front : c.cold_list ≡ record { id = next; node = n } ∷ cold
    pub cold_linked : Linked next cold c.cold_map
    pub cold_sum : c.cold_size ≡ (n.value_size + sum cold) % 2 ^ 64

  -- The node is in the cold map too.
  record IsLinkedIn (c d : LruCache V) (n : Node V) (cold : List (Entry V)) : Type 0 where
    pub valid : IsValid d
    pub hot_list_is : d.hot_list ≡ c.hot_list
    pub hot_map_is : d.hot_map ≡ c.hot_map
    pub cold_is :
        (q : ℕ)
        → find d.cold_map d.cold_list q
          ≡ (if q == n.key then some n.value else find c.cold_map cold q)

  link_cold-IsLinkedIn :
      (c : LruCache V) (next : ℕ) (n : Node V) (cold : List (Entry V)) (at : Option ℕ)
      → Moved c next n cold
      → c.cold_map n.key ≡ at
      → (d : LruCache V) × (link_cold c n.key next at ≡ some d) × IsLinkedIn c d n cold
  link_cold-IsLinkedIn c next n cold none m at_is =
      let unlinked = Linked-remove next cold c.cold_map n.key m.cold_linked in
      (
        record c { cold_map = put c.cold_map n.key next },
        refl,
        record {
          valid = record {
            hot = subst (λ i. Linked i c.hot_list c.hot_map) (sym m.next_is) m.hot;
            hot_owned = subst (λ i. Owned i c.hot_list c.hot_map) (sym m.next_is) m.hot_owned;
            cold = rw (m.next_is, m.front) (Linked-push next cold c.cold_map n unlinked);
            cold_sum = rw m.front m.cold_sum;
          };
          hot_list_is = refl;
          hot_map_is = refl;
          cold_is = λ q. rw m.front (find-push next cold c.cold_map n q unlinked);
        },
      )
  link_cold-IsLinkedIn c next n cold (some old) m at_is =
      let (below, node, found, key) = m.cold_linked n.key old at_is in
      let erased = Linked-erase next cold c.cold_map n.key old m.cold_linked at_is in
      (
        record c {
          cold_size = minus c.cold_size node.value_size;
          cold_list = erase old c.cold_list;
          cold_map = put c.cold_map n.key next;
        },
        ap (replace_cold c n.key next old)
            (ap (deref old) m.front ∙ deref-front next old n cold below ∙ found),
        record {
          valid = record {
            hot = subst (λ i. Linked i c.hot_list c.hot_map) (sym m.next_is) m.hot;
            hot_owned = subst (λ i. Owned i c.hot_list c.hot_map) (sym m.next_is) m.hot_owned;
            cold =
                rw (m.next_is, m.front, erase-front next old n cold below)
                  (Linked-push next (erase old cold) c.cold_map n erased);
            cold_sum =
                rw (m.front, erase-front next old n cold below, m.cold_sum)
                  (minus_part (n.value_size + sum cold) (n.value_size + sum (erase old cold))
                    node.value_size (omega (arith, sum-erase old cold node found)));
          };
          hot_list_is = refl;
          hot_map_is = refl;
          cold_is = λ q.
              rw (m.front, erase-front next old n cold below)
                (find-push next (erase old cold) c.cold_map n q erased
                  ∙ find-replaced next cold c.cold_map n old q m.cold_linked at_is);
        },
      )

  -- Nodes have moved from the hot list to the cold list.
  pub record IsCooled (c d : LruCache V) : Type 0 where
    pub valid : IsValid d
    pub absent : (q : ℕ) → c.hot_map q ≡ none → d.hot_map q ≡ none
    pub same : (q : ℕ) → lookup d q ≡ lookup c q

  cool_last-lookup :
      (next : ℕ) (e : Entry V) (es : List (Entry V)) (m : Index) (q : ℕ) (cold : Option V)
      → Linked next (e ∷ es) m
      → Owned next (e ∷ es) m
      → or_else
          (find (remove m (back e es).node.key) (pop_back e es) q)
          (if q == (back e es).node.key then some (back e es).node.value else cold)
        ≡ or_else (find m (e ∷ es) q) cold
  cool_last-lookup next e es m q cold l o = elim (Bool-cases (q == (back e es).node.key)) [
    | inl same ↦
        let here : find m (e ∷ es) q ≡ some (back e es).node.value =
          ap (find m (e ∷ es)) (ground arith) ∙ find-back next e es m o in
        rw (find-pop_back next e es m q l, same, here) refl
    | inr other ↦ rw (find-pop_back next e es m q l, other) refl
  ]

  cool_last-IsCooled :
      (c : LruCache V) (es : List (Entry V))
      → c.hot_list ≡ es
      → IsValid c
      → (d : LruCache V) × (cool_last c es ≡ some d) × IsCooled c d
  cool_last-IsCooled c [] h v = (c, refl, record { valid = v; absent = λ q a. a; same = λ q. refl })
  cool_last-IsCooled c (e ∷ es) h v =
      let last = (back e es).node in
      let hot = subst (λ xs. Linked c.next_id xs c.hot_map) h v.hot in
      let owned = subst (λ xs. Owned c.next_id xs c.hot_map) h v.hot_owned in
      let (d, linked, r) =
        link_cold-IsLinkedIn
          (record c {
            hot_size = minus c.hot_size last.value_size;
            hot_map = remove c.hot_map last.key;
            hot_list = pop_back e es;
            cold_size = (c.cold_size + last.value_size) % 2 ^ 64;
            cold_list = record { id = c.next_id; node = last } ∷ c.cold_list;
            next_id = suc c.next_id;
          })
          c.next_id last c.cold_list (c.cold_map last.key)
          (record {
            next_is = refl;
            hot =
                Linked-weaken c.next_id (pop_back e es) (remove c.hot_map last.key)
                  (Linked-pop_back c.next_id e es c.hot_map hot);
            hot_owned =
                Owned-weaken c.next_id (pop_back e es) (remove c.hot_map last.key)
                  (Owned-pop_back c.next_id e es c.hot_map owned);
            front = refl;
            cold_linked = v.cold;
            cold_sum = omega (arith, v.cold_sum);
          })
          refl in
      (
        d,
        linked,
        record {
          valid = r.valid;
          absent =
              λ q a. ap (λ (m : Index). m q) r.hot_map_is ∙ remove-absent c.hot_map last.key q a;
          same = λ q.
              ap (λ m. or_else (find m d.hot_list q) (find d.cold_map d.cold_list q)) r.hot_map_is
              ∙ ap
                  (λ xs.
                    or_else (find (remove c.hot_map last.key) xs q) (find d.cold_map d.cold_list q))
                  r.hot_list_is
              ∙ ap (or_else (find (remove c.hot_map last.key) (pop_back e es) q)) (r.cold_is q)
              ∙ cool_last-lookup c.next_id e es c.hot_map q (find c.cold_map c.cold_list q) hot
                  owned
              ∙ ap (λ xs. or_else (find c.hot_map xs q) (find c.cold_map c.cold_list q)) (sym h);
        },
      )

  reserve_hot_loop-IsCooled :
      (rounds value_size : ℕ) (c : LruCache V)
      → IsValid c
      → (d : LruCache V) × (reserve_hot_loop rounds value_size c ≡ some d) × IsCooled c d
  unfolding reserve_hot_loop
  reserve_hot_loop-IsCooled zero value_size c v =
      (c, refl, record { valid = v; absent = λ q a. a; same = λ q. refl })
  reserve_hot_loop-IsCooled (suc rounds) value_size c v =
      elim (Bool-cases
        (not (is_empty c.hot_list) && ltb c.max_hot_size ((c.hot_size + value_size) % 2 ^ 64))) [
          | inl over ↦
              let (d, cooled, one) = cool_last-IsCooled c c.hot_list refl v in
              let (r, runs, more) = reserve_hot_loop-IsCooled rounds value_size d one.valid in
              (
                r,
                rw (over, cooled) runs,
                record {
                  valid = more.valid;
                  absent = λ q a. more.absent q (one.absent q a);
                  same = λ q. more.same q ∙ one.same q;
                },
              )
          | inr fits ↦ (c, rw fits refl, record { valid = v; absent = λ q a. a; same = λ q. refl })
        ]

  pub reserve_hot-IsCooled :
      (c : LruCache V) (value_size : ℕ)
      → IsValid c
      → (d : LruCache V) × (reserve_hot c value_size ≡ some d) × IsCooled c d
  unfolding reserve_hot
  reserve_hot-IsCooled c value_size v = reserve_hot_loop-IsCooled (length c.hot_list) value_size c v
