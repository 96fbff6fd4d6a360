-- ===== src/Tests/Lru.antt =====
-- include/xfutil/lru_cache.h: the theorems at concrete caches.
use xfutil.Base.{◌⊎◌, ℕ, ◌*◌, ◌/◌, ◌≤◌, ◌≡◌, refl, arith, none, some, length}
use xfutil.Lru.{LruCache, new, add, get, delete}
use xfutil.Lru.View.{lookup}
use xfutil.Lru.Valid.{IsValid, new-IsValid}
use xfutil.Lru.Lookup.{get-lookup}
use xfutil.Lru.Delete.{is_some, IsWithout, delete-lookup}
use xfutil.Lru.Evict.{IsEvicted}
use xfutil.Lru.Insert.{add-keeps, add-lookup}

abbrev six_tenths : ℕ → ℕ
six_tenths n = n * 6 / 10

abbrev empty : LruCache ℕ
empty = new six_tenths 100

abbrev one : LruCache ℕ
one = add empty 7 70 30

empty-IsValid : IsValid empty
empty-IsValid = new-IsValid six_tenths 100

one-IsValid : IsValid one
one-IsValid = (add-keeps empty 7 70 30 8 empty-IsValid (λ e. omega (arith, e))).0

-- The second value does not fit beside the first.
add_evicts : lookup (add one 8 80 20) 7 ≡ none
unfolding add new
add_evicts = refl

add-keeps_example :
    IsValid (add one 8 80 20)
    × ((lookup (add one 8 80 20) 7 ≡ lookup one 7)
        ⊎ ((lookup (add one 8 80 20) 7 ≡ none) × IsEvicted one 20 7))
add-keeps_example = add-keeps one 8 80 20 7 one-IsValid (λ e. omega (arith, e))

one-absent : lookup one 8 ≡ none
unfolding add new
one-absent = refl

add-lookup_example :
    (lookup (add one 8 80 20) 8 ≡ some 80)
    × ((length (add one 8 80 20).cold_list ≡ 1)
        ⊎ ((add one 8 80 20).cold_size ≤ (add one 8 80 20).max_cold_size))
add-lookup_example = add-lookup one 8 80 20 one-IsValid one-absent

get-lookup_example :
    (d : LruCache ℕ) × (get one 7 ≡ some (d, lookup one 7))
    × IsValid d
    × ((q : ℕ) → lookup d q ≡ lookup one q)
get-lookup_example = get-lookup one 7 one-IsValid

one_value : lookup one 7 ≡ some 70
unfolding add new
one_value = refl

delete-lookup_example :
    (d : LruCache ℕ) × (delete one 7 ≡ some (d, is_some (lookup one 7))) × IsWithout one 7 d
delete-lookup_example = delete-lookup one 7 one-IsValid
