-- ===== src/Lru/Linked.antt =====
-- include/xfutil/lru_cache.h: the iterators in the maps point to the nodes of their keys.
use xfutil.Base.{
  ℕ, suc, ◌<◌, ◌≡◌, ◌≢◌, refl, ap, sym, ◌∙◌, arith, Bool-cases, inl, inr, false, ◌==◌, List, [],
  ◌∷◌, none, some,
}
use mathlib.Core.Option.{some-injective}
use xfutil.Lru.{Node, Entry, Index, put, remove, deref, erase, pop_back, back}

pub none-ne-some {ℓ} : {A : Type ℓ} {a : A} → none ≡ some a → ⊥
none-ne-some e = cc

pub differ : (a b : ℕ) → (a == b) ≡ false → a ≢ b
differ a b h e = ground arith

module _ {V : Type 0} where
  -- Each iterator in the map was given out, and its node is in the list, with the map's key.
  abbrev pub Linked : ℕ → List (Entry V) → Index → Type 0
  Linked next es m =
      (k i : ℕ) → m k ≡ some i → (i < next) × (n : Node V) × (deref i es ≡ some n) × (n.key ≡ k)

  pub deref-erase : (i j : ℕ) (es : List (Entry V)) → j ≢ i → deref j (erase i es) ≡ deref j es
  deref-erase i j [] h = refl
  deref-erase i j (e ∷ es) h = ground (arith, deref-erase i j es)

  pub deref-pop_back :
      (i : ℕ) (e : Entry V) (es : List (Entry V)) (n : Node V)
      → deref i (e ∷ es) ≡ some n
      → n.key ≢ (back e es).node.key
      → deref i (pop_back e es) ≡ some n
  deref-pop_back i e [] n h other = ground arith
  deref-pop_back i e (f ∷ es) n h other = ground (arith, deref-pop_back i f es n)

  pub Linked-push :
      (next : ℕ) (es : List (Entry V)) (m : Index) (n : Node V)
      → Linked next es (remove m n.key)
      → Linked (suc next) (record { id = next; node = n } ∷ es) (put m n.key next)
  Linked-push next es m n l k i e = elim (Bool-cases (k == n.key)) [
    | inl same ↦
        let at : next ≡ i = some-injective _ _ (rw same at e) in
        (omega (arith, at), n, ground arith, ground arith)
    | inr other ↦
        let (old, node, found, key) = l k i (rw other (rw other at e)) in
        (omega arith, node, ground arith, key)
  ]

  pub Linked-remove :
      (next : ℕ) (es : List (Entry V)) (m : Index) (k : ℕ)
      → Linked next es m
      → Linked next es (remove m k)
  Linked-remove next es m k l k' i e = elim (Bool-cases (k' == k)) [
    | inl same ↦ absurd (none-ne-some (rw same at e))
    | inr other ↦ l k' i (rw other at e)
  ]

  pub Linked-weaken :
      (next : ℕ) (es : List (Entry V)) (m : Index) → Linked next es m → Linked (suc next) es m
  Linked-weaken next es m l k i e =
      let (old, node, found, key) = l k i e in (omega arith, node, found, key)

  pub Linked-erase :
      (next : ℕ) (es : List (Entry V)) (m : Index) (k i : ℕ)
      → Linked next es m
      → m k ≡ some i
      → Linked next (erase i es) (remove m k)
  Linked-erase next es m k i l h k' i' e = elim (Bool-cases (k' == k)) [
    | inl same ↦ absurd (none-ne-some (rw same at e))
    | inr other ↦
        let (old, node, found, key) = l k' i' (rw other at e) in
        let (old', node', found', key') = l k i h in
        let apart : i' ≢ i = λ same. absurd (
          differ k' k other (
            sym key
            ∙ ap (λ (n : Node V). n.key)
                (some-injective _ _ (sym found ∙ ap (λ j. deref j es) same ∙ found'))
            ∙ key')) in
        (old, node, deref-erase i i' es apart ∙ found, key)
  ]

  pub Linked-pop_back :
      (next : ℕ) (e : Entry V) (es : List (Entry V)) (m : Index)
      → Linked next (e ∷ es) m
      → Linked next (pop_back e es) (remove m (back e es).node.key)
  Linked-pop_back next e es m l k i h = elim (Bool-cases (k == (back e es).node.key)) [
    | inl same ↦ absurd (none-ne-some (rw same at h))
    | inr other ↦
        let (old, node, found, key) = l k i (rw other at h) in
        (
          old,
          node,
          deref-pop_back i e es node found (λ same. differ k _ other (sym key ∙ same)),
          key,
        )
  ]
