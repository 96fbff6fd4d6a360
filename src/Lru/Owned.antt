-- ===== src/Lru/Owned.antt =====
-- include/xfutil/lru_cache.h: the nodes of a list have different names, and the map leads to each of
-- them.
use xfutil.Base.{
  ℕ, suc, ◌≤◌, ◌<◌, ◌≡◌, ◌≢◌, refl, ap, sym, subst, ◌∙◌, arith, Bool-cases, inl, inr, ◌==◌, List,
  [], ◌∷◌, none, some,
}
use mathlib.Core.Option.{some-injective}
use xfutil.Lru.{Node, Entry, Index, put, remove, deref, erase, pop_back, back}
use xfutil.Lru.Linked.{none-ne-some, deref-erase}

module _ {V : Type 0} where
  -- The names go down from front to back, and all are below `next`.
  abbrev pub Fresh : ℕ → List (Entry V) → Type 0
  Fresh next [] = Unit
  Fresh next (e ∷ es) = (e.id < next) × Fresh e.id es

  pub Fresh-weaken : (a b : ℕ) (es : List (Entry V)) → a ≤ b → Fresh a es → Fresh b es
  Fresh-weaken a b [] h f = tt
  Fresh-weaken a b (e ∷ es) h f = (omega (arith, f.0, h), f.1)

  Fresh-erase : (a i : ℕ) (es : List (Entry V)) → Fresh a es → Fresh a (erase i es)
  Fresh-erase a i [] f = tt
  Fresh-erase a i (e ∷ es) f = elim (Bool-cases (e.id == i)) [
    | inl same ↦ rw same (Fresh-weaken e.id a es (omega (arith, f.0)) f.1)
    | inr other ↦ rw other (f.0, Fresh-erase e.id i es f.1)
  ]

  Fresh-pop_back :
      (a : ℕ) (e : Entry V) (es : List (Entry V)) → Fresh a (e ∷ es) → Fresh a (pop_back e es)
  Fresh-pop_back a e [] f = tt
  Fresh-pop_back a e (g ∷ es) f = (f.0, Fresh-pop_back e.id g es f.1)

  deref-old : (a i : ℕ) (es : List (Entry V)) → Fresh a es → a ≤ i → deref i es ≡ none
  deref-old a i [] f h = refl
  deref-old a i (e ∷ es) f h = ground (arith, f.0, deref-old e.id i es f.1 (omega (arith, f.0, h)))

  deref-erased : (a i : ℕ) (es : List (Entry V)) → Fresh a es → deref i (erase i es) ≡ none
  deref-erased a i [] f = refl
  deref-erased a i (e ∷ es) f = elim (Bool-cases (e.id == i)) [
    | inl same ↦ rw same (deref-old e.id i es f.1 (ground arith))
    | inr other ↦ ground (arith, deref-erased e.id i es f.1)
  ]

  back-below : (a : ℕ) (e : Entry V) (es : List (Entry V)) → Fresh a (e ∷ es) → (back e es).id < a
  back-below a e [] f = f.0
  back-below a e (g ∷ es) f = omega (arith, f.0, back-below e.id g es f.1)

  pub deref-back :
      (a : ℕ) (e : Entry V) (es : List (Entry V))
      → Fresh a (e ∷ es)
      → deref (back e es).id (e ∷ es) ≡ some (back e es).node
  deref-back a e [] f = ground arith
  deref-back a e (g ∷ es) f = ground (arith, deref-back e.id g es f.1, back-below e.id g es f.1)

  deref-popped :
      (a : ℕ) (e : Entry V) (es : List (Entry V))
      → Fresh a (e ∷ es)
      → deref (back e es).id (pop_back e es) ≡ none
  deref-popped a e [] f = refl
  deref-popped a e (g ∷ es) f = ground (arith, deref-popped e.id g es f.1, back-below e.id g es f.1)

  deref-kept :
      (i : ℕ) (e : Entry V) (es : List (Entry V)) (n : Node V)
      → deref i (pop_back e es) ≡ some n
      → deref i (e ∷ es) ≡ some n
  deref-kept i e [] n h = absurd (none-ne-some h)
  deref-kept i e (g ∷ es) n h = ground (arith, deref-kept i g es n)

  pub record Owned (next : ℕ) (es : List (Entry V)) (m : Index) : Type 0 where
    pub fresh : Fresh next es
    pub owner : (i : ℕ) (n : Node V) → deref i es ≡ some n → m n.key ≡ some i

  pub Owned-weaken :
      (next : ℕ) (es : List (Entry V)) (m : Index) → Owned next es m → Owned (suc next) es m
  Owned-weaken next es m o = record {
    fresh = Fresh-weaken next (suc next) es (omega arith) o.fresh;
    owner = o.owner;
  }

  owner-push :
      (next : ℕ) (es : List (Entry V)) (m : Index) (n : Node V)
      → Owned next es (remove m n.key)
      → (i : ℕ) (n' : Node V) → deref i (record { id = next; node = n } ∷ es) ≡ some n'
      → put m n.key next n'.key ≡ some i
  owner-push next es m n o i n' h = elim (Bool-cases (next == i)) [
    | inl same ↦
        let is_n : n ≡ n' = some-injective _ _ (rw same at h) in
        let is_next : next ≡ i = ground arith in
        subst (λ (q : Node V). put m n.key next q.key ≡ some i) is_n (ground arith)
    | inr other ↦
        let owned = o.owner i n' (rw other at h) in
        elim (Bool-cases (n'.key == n.key)) [
          | inl key ↦ absurd (none-ne-some (rw key at owned))
          | inr key ↦ rw key (rw key at owned)
        ]
  ]

  pub Owned-push :
      (next : ℕ) (es : List (Entry V)) (m : Index) (n : Node V)
      → Owned next es (remove m n.key)
      → Owned (suc next) (record { id = next; node = n } ∷ es) (put m n.key next)
  Owned-push next es m n o = record {
    fresh = (omega arith, o.fresh);
    owner = owner-push next es m n o;
  }

  -- Removing a key that the list does not have.
  pub Owned-absent :
      (next : ℕ) (es : List (Entry V)) (m : Index) (k : ℕ)
      → Owned next es m
      → m k ≡ none
      → Owned next es (remove m k)
  Owned-absent next es m k o absent = record {
    fresh = o.fresh;
    owner = λ i n h. elim (Bool-cases (n.key == k)) [
      | inl same ↦ absurd (none-ne-some (sym absent ∙ ap m (ground arith) ∙ o.owner i n h))
      | inr other ↦ rw other (o.owner i n h)
    ];
  }

  pub Owned-erase :
      (next : ℕ) (es : List (Entry V)) (m : Index) (k i : ℕ)
      → Owned next es m
      → m k ≡ some i
      → Owned next (erase i es) (remove m k)
  Owned-erase next es m k i o at = record {
    fresh = Fresh-erase next i es o.fresh;
    owner = λ j n h.
        let apart : j ≢ i = λ same.
          none-ne-some (
            sym (deref-erased next i es o.fresh) ∙ ap (λ q. deref q (erase i es)) (sym same) ∙ h) in
        let owned = o.owner j n (sym (deref-erase i j es apart) ∙ h) in
        elim (Bool-cases (n.key == k)) [
          | inl same ↦ absurd (apart (some-injective _ _ (sym owned ∙ ap m (ground arith) ∙ at)))
          | inr other ↦ rw other owned
        ];
  }

  pub Owned-pop_back :
      (next : ℕ) (e : Entry V) (es : List (Entry V)) (m : Index)
      → Owned next (e ∷ es) m
      → Owned next (pop_back e es) (remove m (back e es).node.key)
  Owned-pop_back next e es m o = record {
    fresh = Fresh-pop_back next e es o.fresh;
    owner = λ j n h.
        let owned = o.owner j n (deref-kept j e es n h) in
        let last = o.owner (back e es).id (back e es).node (deref-back next e es o.fresh) in
        let apart : j ≢ (back e es).id = λ same. none-ne-some (
          sym (deref-popped next e es o.fresh)
          ∙ ap (λ q. deref q (pop_back e es)) (sym same)
          ∙ h) in
        elim (Bool-cases (n.key == (back e es).node.key)) [
          | inl same ↦ absurd (apart (some-injective _ _ (sym owned ∙ ap m (ground arith) ∙ last)))
          | inr other ↦ rw other owned
        ];
  }
