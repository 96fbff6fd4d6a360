-- ===== src/MemoryPool/Ranges.antt =====
-- src/memory_pool.cpp: which of the elements held lie in a block, and lists as sets.
use xfutil.Base.{
  ℕ, ◌+◌, ◌≤◌, ◌<◌, ◌≡◌, ◌⊎◌, inl, inr, refl, ap, ◌∙◌, arith, Bool-cases, true, ◌&&◌, ltb, leb,
  ◌==◌, if◌then◌else◌, List, [], ◌∷◌, ◌++◌, length, Option, none, some,
}
use xfutil.BlockPool.Ownership.{count}
use xfutil.MemoryPool.{without, least, upper_bound}

abbrev pub Has : ℕ → List ℕ → Type 0
Has x xs = 0 < count x xs

-- `x` is one of the `n` bytes from `a` on.
abbrev pub Inside : ℕ → ℕ → ℕ → Type 0
Inside a n x = (a ≤ x) × (x < a + n)

-- Two ranges have no byte in common.
abbrev pub Away : ℕ → ℕ → ℕ → ℕ → Type 0
Away a n b m = (a + n ≤ b) ⊎ (b + m ≤ a)

-- The elements of the list that lie in a range.
abbrev pub within : ℕ → ℕ → List ℕ → List ℕ
within a n [] = []
within a n (x ∷ xs) =
    let rest = within a n xs in if leb a x && ltb x (a + n) then x ∷ rest else rest

pub within_in : (a n x : ℕ) (xs : List ℕ) → Inside a n x → within a n (x ∷ xs) ≡ x ∷ within a n xs
within_in a n x xs i = ground arith

pub within_out : (a n x : ℕ) (xs : List ℕ) → ¬ Inside a n x → within a n (x ∷ xs) ≡ within a n xs
within_out a n x xs o = ground arith

pub within-append :
    (a n : ℕ) (xs ys : List ℕ) → within a n (xs ++ ys) ≡ within a n xs ++ within a n ys
within-append a n [] ys = refl
within-append a n (x ∷ xs) ys = elim (Bool-cases (leb a x && ltb x (a + n))) [
  | inl i ↦ rw i (ap (◌∷◌ x) (within-append a n xs ys))
  | inr o ↦ rw o (within-append a n xs ys)
]

pub count-within : (a n x : ℕ) (xs : List ℕ) → Inside a n x → count x (within a n xs) ≡ count x xs
count-within a n x [] i = refl
count-within a n x (y ∷ ys) i = ground (arith, count-within a n x ys i)

pub length-within-le : (a n : ℕ) (xs : List ℕ) → length (within a n xs) ≤ length xs
length-within-le a n [] = omega arith
length-within-le a n (x ∷ xs) = ground (arith, length-within-le a n xs)

-- No element in a range that none of them lies in.
pub within_none :
    (a n : ℕ) (xs : List ℕ) → ((x : ℕ) → Has x xs → ¬ Inside a n x) → within a n xs ≡ []
within_none a n [] h = refl
within_none a n (x ∷ xs) h =
    within_out a n x xs (h x (ground arith))
    ∙ within_none a n xs (λ y some. h y (omega (arith, some)))

pub count-without :
    (x h : ℕ) (xs : List ℕ) → count x (without h xs) ≡ (if x == h then 0 else count x xs)
count-without x h [] = ground arith
count-without x h (y ∷ ys) = ground (arith, count-without x h ys)

-- An empty range has none of the elements.
pub within_empty :
    (a n : ℕ) (xs : List ℕ) → length (within a n xs) ≡ 0 → (x : ℕ) → Has x xs → ¬ Inside a n x
within_empty a n [] empty x has i = omega (arith, has)
within_empty a n (y ∷ ys) empty x has i = elim (Bool-cases (leb a y && ltb y (a + n))) [
  | inl inside ↦ absurd (omega (arith, rw inside at empty))
  | inr outside ↦ within_empty a n ys (rw outside at empty) x (ground arith) i
]

none-ne : {a : ℕ} → none ≡ some a → ⊥
none-ne e = cc

least-Has :
    (p x : ℕ) (xs : List ℕ) (o : Option ℕ)
    → p < x
    → ((r : ℕ) → o ≡ some r → Has r xs × (p < r))
    → (r : ℕ) → least x o ≡ some r
    → Has r (x ∷ xs) × (p < r)
least-Has p x xs none less h r e = ground arith
least-Has p x xs (some q) less h r e = ground (arith, h q refl)

upper_bound-Has : (p : ℕ) (es : List ℕ) (r : ℕ) → upper_bound p es ≡ some r → Has r es × (p < r)
unfolding upper_bound
upper_bound-Has p [] r e = absurd (none-ne e)
upper_bound-Has p (x ∷ xs) r e = elim (Bool-cases (ltb p x)) [
  | inl above ↦
      least-Has p x xs (upper_bound p xs) (ground arith) (upper_bound-Has p xs) r (rw above at e)
  | inr below ↦ let i = upper_bound-Has p xs r (rw below at e) in (omega (arith, i.0), i.1)
]

least_first : (p e : ℕ) (o : Option ℕ) → ((r : ℕ) → o ≡ some r → e ≤ r) → least e o ≡ some e
least_first p e none h = refl
least_first p e (some r) h = ground (arith, h r refl)

-- The least end above a pointer.
pub upper_bound-least :
    (p e : ℕ) (es : List ℕ)
    → Has e es
    → p < e
    → ((e' : ℕ) → Has e' es → p < e' → e ≤ e')
    → upper_bound p es ≡ some e
unfolding upper_bound
upper_bound-least p e [] has less h = absurd (omega (arith, has))
upper_bound-least p e (x ∷ xs) has less h = elim (Bool-cases (e == x)) [
  | inl same ↦
      let is : x ≡ e = ground arith in
      let above : ltb p x ≡ true = ground arith in
      rw (above, is)
        (least_first p e (upper_bound p xs)
          (λ r at. let i = upper_bound-Has p xs r at in h r (omega (arith, i.0)) i.1))
  | inr other ↦
      let rest =
        upper_bound-least p e xs (ground arith) less (λ e' some. h e' (omega (arith, some))) in
      rw rest (elim (Bool-cases (ltb p x)) [
        | inl above ↦ rw above (ground (arith, h x))
        | inr below ↦ rw below refl
      ])
]
