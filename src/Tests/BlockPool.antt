-- ===== src/Tests/BlockPool.antt =====
-- src/block_pool.cpp at concrete inputs.
use xfutil.Base.{ℕ, ◌+◌, ◌≤◌, ◌<◌, ◌≡◌, refl, List, [], ◌∷◌}
use xfutil.BlockPool.{BlockPool, new, cut, init, alloc, free}
use xfutil.BlockPool.Ownership.{count, Calls, ready, allocated, freed, Calls-owned}

abbrev made : BlockPool
made = record {
  block_size = 4096;
  cache_start = 65536;
  cache_end = 73728;
  free_blocks = 69632 ∷ [];
}

no_cons : {x : ℕ} {xs : List ℕ} → x ∷ xs ≡ [] → ⊥
no_cons e = cc

-- Two blocks of the cache taken, and the second given back.
some-Calls : Calls 2 4096 65536 made (65536 ∷ [])
unfolding init new cut alloc free
some-Calls =
    freed [] (65536 ∷ []) 69632
      (allocated 0 (allocated 0 (ready refl) (λ e. absurd (no_cons e))) (λ e. absurd (no_cons e)))

Calls-owned_example :
    (count 69632 made.free_blocks + count 69632 (65536 ∷ []) ≤ 1)
    × (0 < count 69632 (cut 2 4096 65536)
        → count 69632 made.free_blocks + count 69632 (65536 ∷ []) ≡ 1)
Calls-owned_example = Calls-owned 2 4096 65536 some-Calls 69632
