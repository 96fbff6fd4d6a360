-- ===== src/Lru.antt =====
-- include/xfutil/lru_cache.h: the class `LruCache`. The mutex makes each method one step. Keys are
-- numbers. An iterator is the name of a list node: each node that is pushed gets a new one, and a
-- map of iterators is a function. What is read through an iterator whose node is gone is `none`: the
-- code's behaviour is then undefined.
pub mod Linked
pub mod Owned
pub mod View
pub mod Sizes
pub mod Valid
pub mod Cool
pub mod Lookup
pub mod Delete
pub mod Evict
pub mod Insert
use xfutil.Base.{
  ℕ, zero, suc, ◌+◌, ◌-◌, ◌*◌, ◌/◌, ◌%◌, ◌^◌, Bool, true, false, not, ◌&&◌, ltb, ◌==◌,
  if◌then◌else◌, List, [], ◌∷◌, ◌++◌, Option, none, some, length,
}

pub record Node (V : Type 0) : Type 0 where
  pub key : ℕ
  pub value : V
  pub value_size : ℕ

-- A node of a list, with its name.
pub record Entry (V : Type 0) : Type 0 where
  pub id : ℕ
  pub node : Node V

-- A map from keys to iterators, and its changes.
abbrev pub Index : Type 0
Index = ℕ → Option ℕ

abbrev pub put : Index → ℕ → ℕ → Index
put m k i q = if q == k then some i else m q

abbrev pub remove : Index → ℕ → Index
remove m k q = if q == k then none else m q

-- `-=` of a `size_t`.
abbrev pub minus : ℕ → ℕ → ℕ
minus a b = (a + (2 ^ 64 - b % 2 ^ 64)) % 2 ^ 64

-- `next_id` is the name for the next node.
pub record LruCache (V : Type 0) : Type 0 where
  pub max_hot_size : ℕ
  pub max_cold_size : ℕ
  pub hit_count : ℕ
  pub miss_count : ℕ
  pub hot_size : ℕ
  pub hot_list : List (Entry V)
  pub hot_map : Index
  pub cold_size : ℕ
  pub cold_list : List (Entry V)
  pub cold_map : Index
  pub next_id : ℕ

abbrev pub and_then : {A B : Type 0} → Option A → (A → Option B) → Option B
and_then none f = none
and_then (some a) f = f a

module _ {V : Type 0} where
  -- The node that an iterator points to.
  abbrev pub deref : ℕ → List (Entry V) → Option (Node V)
  deref i [] = none
  deref i (e ∷ es) = if e.id == i then some e.node else deref i es

  -- `erase(it)`
  abbrev pub erase : ℕ → List (Entry V) → List (Entry V)
  erase i [] = []
  erase i (e ∷ es) = if e.id == i then es else e ∷ erase i es

  -- `pop_back()` and `back()` of a list that is not empty.
  abbrev pub pop_back : Entry V → List (Entry V) → List (Entry V)
  pop_back e [] = []
  pop_back e (f ∷ es) = e ∷ pop_back f es

  abbrev pub back : Entry V → List (Entry V) → Entry V
  back e [] = e
  back e (f ∷ es) = back f es

  -- The constructor. `hot_part` is the floating product with 0.6, cut to an integer.
  unfoldable pub new : (ℕ → ℕ) → ℕ → LruCache V
  new hot_part max_size = record {
    max_hot_size = hot_part max_size;
    max_cold_size = minus max_size (hot_part max_size);
    hit_count = 0;
    miss_count = 0;
    hot_size = 0;
    hot_list = [];
    hot_map = λ k. none;
    cold_size = 0;
    cold_list = [];
    cold_map = λ k. none;
    next_id = 0;
  }

  abbrev pub is_empty : List (Entry V) → Bool
  is_empty [] = true
  is_empty (e ∷ es) = false

  -- One round of the loop of `ReserveColdList`: the last node of the list goes.
  abbrev pub drop_last : LruCache V → List (Entry V) → LruCache V
  drop_last c [] = c
  drop_last c (e ∷ es) =
      let last = back e es in
      record c {
        cold_size = minus c.cold_size last.node.value_size;
        cold_map = remove c.cold_map last.node.key;
        cold_list = pop_back e es;
      }

  unfoldable pub reserve_cold_loop : ℕ → ℕ → LruCache V → LruCache V
  reserve_cold_loop zero value_size c = c
  reserve_cold_loop (suc rounds) value_size c =
      let rest = reserve_cold_loop rounds value_size (drop_last c c.cold_list) in
      if not (is_empty c.cold_list) && ltb c.max_cold_size ((c.cold_size + value_size) % 2 ^ 64)
      then rest
      else c

  -- `ReserveColdList(value_size)`: each round takes a node off the list.
  unfoldable pub reserve_cold : LruCache V → ℕ → LruCache V
  unfolding reserve_cold_loop
  reserve_cold c value_size = reserve_cold_loop (length c.cold_list) value_size c

  -- The end of a round of `ReserveHotList`: the old node of the key, if the cold map has one, goes.
  abbrev pub replace_cold : LruCache V → ℕ → ℕ → ℕ → Option (Node V) → Option (LruCache V)
  replace_cold c k i old none = none
  replace_cold c k i old (some node) = some (record c {
    cold_size = minus c.cold_size node.value_size;
    cold_list = erase old c.cold_list;
    cold_map = put c.cold_map k i;
  })

  abbrev pub link_cold : LruCache V → ℕ → ℕ → Option ℕ → Option (LruCache V)
  link_cold c k i none = some (record c { cold_map = put c.cold_map k i })
  link_cold c k i (some old) = replace_cold c k i old (deref old c.cold_list)

  -- One round of the loop of `ReserveHotList`: the last node goes to the front of the cold list.
  abbrev pub cool_last : LruCache V → List (Entry V) → Option (LruCache V)
  cool_last c [] = some c
  cool_last c (e ∷ es) =
      let node = (back e es).node in
      let moved = record c {
        hot_size = minus c.hot_size node.value_size;
        hot_map = remove c.hot_map node.key;
        hot_list = pop_back e es;
        cold_size = (c.cold_size + node.value_size) % 2 ^ 64;
        cold_list = record { id = c.next_id; node = node } ∷ c.cold_list;
        next_id = suc c.next_id;
      } in
      link_cold moved node.key c.next_id (c.cold_map node.key)

  unfoldable pub reserve_hot_loop : ℕ → ℕ → LruCache V → Option (LruCache V)
  reserve_hot_loop zero value_size c = some c
  reserve_hot_loop (suc rounds) value_size c =
      let rest =
        and_then (cool_last c c.hot_list)
          (λ (d : LruCache V). reserve_hot_loop rounds value_size d) in
      if not (is_empty c.hot_list) && ltb c.max_hot_size ((c.hot_size + value_size) % 2 ^ 64)
      then rest
      else some c

  -- `ReserveHotList(value_size)`
  unfoldable pub reserve_hot : LruCache V → ℕ → Option (LruCache V)
  unfolding reserve_hot_loop
  reserve_hot c value_size = reserve_hot_loop (length c.hot_list) value_size c

  -- `Add(key, value, value_size)`
  abbrev pub add_at : LruCache V → ℕ → V → ℕ → Option ℕ → LruCache V
  add_at c k v value_size none = record c {
    cold_list =
        record { id = c.next_id; node = record { key = k; value = v; value_size = value_size } }
        ∷ c.cold_list;
    cold_map = put c.cold_map k c.next_id;
    cold_size = (c.cold_size + value_size) % 2 ^ 64;
    next_id = suc c.next_id;
  }
  add_at c k v value_size (some i) = c

  unfoldable pub add : LruCache V → ℕ → V → ℕ → LruCache V
  unfolding reserve_cold
  add c k v value_size = let r = reserve_cold c value_size in add_at r k v value_size (r.cold_map k)

  -- The front of the hot list gets a node, and the map its iterator.
  abbrev pub push_hot : LruCache V → ℕ → Node V → LruCache V
  push_hot c k node = record c {
    hot_list = record { id = c.next_id; node = node } ∷ c.hot_list;
    hot_map = put c.hot_map k c.next_id;
    next_id = suc c.next_id;
  }

  -- `Get(key, value)`, in the hot map, in the cold map, and in neither.
  abbrev pub touch_hot : LruCache V → ℕ → ℕ → Option (Node V) → Option (LruCache V × Option V)
  touch_hot c k i none = none
  touch_hot c k i (some node) = some (
    push_hot (record c { hit_count = (c.hit_count + 1) % 2 ^ 64; hot_list = erase i c.hot_list }) k
        node,
    some node.value,
  )

  abbrev pub warm : LruCache V → ℕ → ℕ → Option (Node V) → Option (LruCache V × Option V)
  warm c k i none = none
  warm c k i (some node) =
      let taken = record c {
        hit_count = (c.hit_count + 1) % 2 ^ 64;
        cold_size = minus c.cold_size node.value_size;
        cold_list = erase i c.cold_list;
        cold_map = remove c.cold_map k;
      } in
      and_then (reserve_hot taken node.value_size)
        (λ (d : LruCache V). some (push_hot d node.key node, some node.value))

  abbrev pub get_cold : LruCache V → ℕ → Option ℕ → Option (LruCache V × Option V)
  get_cold c k none = some (record c { miss_count = (c.miss_count + 1) % 2 ^ 64 }, none)
  get_cold c k (some i) = warm c k i (deref i c.cold_list)

  abbrev pub get_hot : LruCache V → ℕ → Option ℕ → Option (LruCache V × Option V)
  get_hot c k none = get_cold c k (c.cold_map k)
  get_hot c k (some i) = touch_hot c k i (deref i c.hot_list)

  unfoldable pub get : LruCache V → ℕ → Option (LruCache V × Option V)
  unfolding reserve_hot
  get c k = get_hot c k (c.hot_map k)

  -- `Delete(key)`
  abbrev pub delete_hot : LruCache V → ℕ → ℕ → Option (Node V) → Option (LruCache V × Bool)
  delete_hot c k i none = none
  delete_hot c k i (some node) = some (
    record c {
      hot_size = minus c.hot_size node.value_size;
      hot_list = erase i c.hot_list;
      hot_map = remove c.hot_map k;
    },
    true,
  )

  abbrev pub delete_cold : LruCache V → ℕ → ℕ → Option (Node V) → Option (LruCache V × Bool)
  delete_cold c k i none = none
  delete_cold c k i (some node) = some (
    record c {
      cold_size = minus c.cold_size node.value_size;
      cold_list = erase i c.cold_list;
      cold_map = remove c.cold_map k;
    },
    true,
  )

  abbrev pub delete_at : LruCache V → ℕ → Option ℕ → Option ℕ → Option (LruCache V × Bool)
  delete_at c k (some i) other = delete_hot c k i (deref i c.hot_list)
  delete_at c k none (some i) = delete_cold c k i (deref i c.cold_list)
  delete_at c k none none = some (c, false)

  unfoldable pub delete : LruCache V → ℕ → Option (LruCache V × Bool)
  delete c k = delete_at c k (c.hot_map k) (c.cold_map k)

  -- `Size()`
  unfoldable pub size : LruCache V → ℕ
  size c = (c.hot_size + c.cold_size) % 2 ^ 64
