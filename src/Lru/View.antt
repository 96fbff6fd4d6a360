-- ===== src/Lru/View.antt =====
-- include/xfutil/lru_cache.h: a cache as a map from keys to values.
use xfutil.Base.{
  ℕ, ◌≡◌, ◌≢◌, refl, ap, sym, ◌∙◌, arith, Bool-cases, inl, inr, ◌==◌, if◌then◌else◌, List, ◌∷◌,
  Option, none, some,
}
use xfutil.Lru.{Node, Entry, Index, put, remove, LruCache, deref, erase, pop_back, back}
use xfutil.Lru.Linked.{differ, deref-erase, deref-pop_back, Linked}
use xfutil.Lru.Owned.{Owned, deref-back}

module _ {V : Type 0} where
  abbrev pub value_of : Option (Node V) → Option V
  value_of none = none
  value_of (some n) = some n.value

  abbrev pub find_at : Option ℕ → List (Entry V) → Option V
  find_at none es = none
  find_at (some i) es = value_of (deref i es)

  -- The value that the map and the list give for a key.
  abbrev pub find : Index → List (Entry V) → ℕ → Option V
  find m es q = find_at (m q) es

  abbrev pub or_else : Option V → Option V → Option V
  or_else none b = b
  or_else (some a) b = some a

  -- The hot list comes first.
  abbrev pub lookup : LruCache V → ℕ → Option V
  lookup c q = or_else (find c.hot_map c.hot_list q) (find c.cold_map c.cold_list q)

  find_at-front :
      (next : ℕ) (es : List (Entry V)) (m : Index) (n : Node V) (q : ℕ) (at : Option ℕ)
      → Linked next es m
      → m q ≡ at
      → find_at at (record { id = next; node = n } ∷ es) ≡ find_at at es
  find_at-front next es m n q none l h = refl
  find_at-front next es m n q (some i) l h = let below = (l q i h).0 in ap value_of (ground arith)

  pub find-push :
      (next : ℕ) (es : List (Entry V)) (m : Index) (n : Node V) (q : ℕ)
      → Linked next es (remove m n.key)
      → find (put m n.key next) (record { id = next; node = n } ∷ es) q
        ≡ (if q == n.key then some n.value else find m es q)
  find-push next es m n q l = elim (Bool-cases (q == n.key)) [
    | inl same ↦ rw same (ground arith)
    | inr other ↦
        let kept : m q ≡ remove m n.key q = rw other refl in
        rw other (
          ap (λ at. find_at at (record { id = next; node = n } ∷ es)) kept
          ∙ find_at-front next es (remove m n.key) n q _ l refl
          ∙ ap (λ at. find_at at es) (sym kept))
  ]

  pub find_at-erase :
      (next : ℕ) (es : List (Entry V)) (m : Index) (k i q : ℕ) (at : Option ℕ)
      → Linked next es m
      → m k ≡ some i
      → m q ≡ at
      → q ≢ k
      → find_at at (erase i es) ≡ find_at at es
  find_at-erase next es m k i q none l k_at q_at other = refl
  find_at-erase next es m k i q (some j) l k_at q_at other =
      let (_, n, found, key) = l k i k_at in
      let (_, n', found', key') = l q j q_at in
      let apart : j ≢ i = λ same. other (cc (found, found', key, key', same)) in
      ap value_of (deref-erase i j es apart)

  pub find-erase :
      (next : ℕ) (es : List (Entry V)) (m : Index) (k i q : ℕ)
      → Linked next es m
      → m k ≡ some i
      → find (remove m k) (erase i es) q ≡ (if q == k then none else find m es q)
  find-erase next es m k i q l at = elim (Bool-cases (q == k)) [
    | inl same ↦ rw same refl
    | inr other ↦ rw other (find_at-erase next es m k i q _ l at refl (differ q k other))
  ]

  find_at-pop_back :
      (next : ℕ) (e : Entry V) (es : List (Entry V)) (m : Index) (q : ℕ) (at : Option ℕ)
      → Linked next (e ∷ es) m
      → m q ≡ at
      → q ≢ (back e es).node.key
      → find_at at (pop_back e es) ≡ find_at at (e ∷ es)
  find_at-pop_back next e es m q none l q_at other = refl
  find_at-pop_back next e es m q (some j) l q_at other =
      let (_, n, found, key) = l q j q_at in
      ap value_of (deref-pop_back j e es n found (λ same. other (sym key ∙ same)) ∙ sym found)

  pub find-pop_back :
      (next : ℕ) (e : Entry V) (es : List (Entry V)) (m : Index) (q : ℕ)
      → Linked next (e ∷ es) m
      → find (remove m (back e es).node.key) (pop_back e es) q
        ≡ (if q == (back e es).node.key then none else find m (e ∷ es) q)
  find-pop_back next e es m q l = elim (Bool-cases (q == (back e es).node.key)) [
    | inl same ↦ rw same refl
    | inr other ↦ rw other (find_at-pop_back next e es m q _ l refl (differ q _ other))
  ]

  -- The last node of the list is what its key leads to.
  pub find-back :
      (next : ℕ) (e : Entry V) (es : List (Entry V)) (m : Index)
      → Owned next (e ∷ es) m
      → find m (e ∷ es) (back e es).node.key ≡ some (back e es).node.value
  find-back next e es m o =
      let last = deref-back next e es o.fresh in
      ap (λ at. find_at at (e ∷ es)) (o.owner (back e es).id (back e es).node last)
      ∙ ap value_of last
