-- ===== src/Tests/Bloom.antt =====
-- src/bloom_filter.cpp at concrete inputs.
use xfutil.Base.{ℕ, ◌≡◌, refl, arith, true, List, [], ◌∷◌, some, All}
use mathlib.Core.Option
use xfutil.Bloom.{BloomFilter, new, create, create_deque, check}
use xfutil.Bloom.Check.{check-create, create_deque-create}

abbrev hashes : List ℕ
hashes = 17 ∷ 4000000001 ∷ 25 ∷ []

new-rounds : (new 10).k_num ≡ 6
unfolding new
new-rounds = refl

check-create_example :
    (bf : BloomFilter) × (create (new 10) hashes ≡ some (true, bf))
    × All (λ h. check bf h ≡ true) hashes
unfolding new
check-create_example = check-create (new 10) 17 (4000000001 ∷ 25 ∷ []) (omega arith)

create_deque-create_example :
    create_deque (new 10) hashes ≡ Option.map (λ r. (r.0, r.1, [])) (create (new 10) hashes)
create_deque-create_example = create_deque-create (new 10) hashes
