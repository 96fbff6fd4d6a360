-- ===== src/Str/Order.antt =====
-- include/xfutil/strutil.h, src/strutil.cpp: the comparisons of views as statements on their bytes.
use xfutil.Base.{
  ℕ, zero, suc, ◌+◌, ◌-◌, ◌≡◌, ◌↔◌, refl, ap, sym, ◌∙◌, arith, true, false, ◌&&◌, ltb, leb, ◌==◌,
  if◌then◌else◌, List, [], ◌∷◌, ◌++◌, length, length-append, le→leb,
}
use native.Mathlib.Nat.{zero-add, add-zero, suc-add, add-suc}
use xfutil.Memory.{Mem, read}
use xfutil.Memory.Laws.{length-read}
use xfutil.Coding.Text.{StrView}
use xfutil.Str.{
  Sign, less, same, more, memcmp, is_same, min_of, bytes, by_size, compare_views, eq_views,
  ne_views, start_with,
}

-- The lexicographic order of byte strings, a proper prefix first.
abbrev pub lex : List ℕ → List ℕ → Sign
lex [] [] = same
lex [] (y ∷ ys) = less
lex (x ∷ xs) [] = more
lex (x ∷ xs) (y ∷ ys) = if ltb x y then less else if ltb y x then more else lex xs ys

pub min_of-suc : (n m : ℕ) → min_of (suc n) (suc m) ≡ suc (min_of n m)
min_of-suc n m = ground arith

by_size-suc : (n m : ℕ) (c : Sign) → by_size (suc n) (suc m) c ≡ by_size n m c
by_size-suc n m less = refl
by_size-suc n m same = ground arith
by_size-suc n m more = refl

by_size-lex :
    (n m : ℕ) (mem : Mem) (a b : ℕ)
    → by_size n m (memcmp mem a b (min_of n m)) ≡ lex (read mem a n) (read mem b m)
unfolding memcmp read
by_size-lex zero zero mem a b = refl
by_size-lex zero (suc m) mem a b = ground arith
by_size-lex (suc n) zero mem a b = ground arith
by_size-lex (suc n) (suc m) mem a b =
    rw (min_of-suc n m) (by_size-suc n m _ ∙ ground (arith, by_size-lex n m mem (suc a) (suc b)))

-- `Compare` is the lexicographic order of the bytes that the views show.
pub compare_views-lex :
    (mem : Mem) (s d : StrView) → compare_views mem s d ≡ lex (bytes mem s) (bytes mem d)
unfolding compare_views
compare_views-lex mem s d = by_size-lex s.size d.size mem s.data_ d.data_

is_same-memcmp :
    (n : ℕ) (mem : Mem) (a b : ℕ)
    → (is_same (memcmp mem a b n) ≡ true) ↔ (read mem a n ≡ read mem b n)
unfolding memcmp read
is_same-memcmp zero mem a b = (λ _. refl, λ _. refl)
is_same-memcmp (suc n) mem a b = (
  λ h. ground (arith, (is_same-memcmp n mem (suc a) (suc b)).0),
  λ h. ground (arith, (is_same-memcmp n mem (suc a) (suc b)).1),
)

-- `==` holds exactly when the views show the same bytes, and `!=` exactly when `==` does not.
pub eq_views_iff :
    (mem : Mem) (s d : StrView)
    → ((eq_views mem s d ≡ true) ↔ (bytes mem s ≡ bytes mem d))
      × ((ne_views mem s d ≡ true) ↔ (eq_views mem s d ≡ false))
unfolding eq_views ne_views
eq_views_iff mem s d = ((λ h. eq_to h, λ h. eq_from h), (λ h. ground arith, λ h. ground arith))
  where
    eq_to :
        (s.size == d.size && is_same (memcmp mem s.data_ d.data_ d.size)) ≡ true
        → bytes mem s ≡ bytes mem d
    eq_to h =
        ap (read mem s.data_) (ground arith)
        ∙ (is_same-memcmp d.size mem s.data_ d.data_).0 (ground arith)

    eq_from :
        bytes mem s ≡ bytes mem d
        → (s.size == d.size && is_same (memcmp mem s.data_ d.data_ d.size)) ≡ true
    eq_from h =
        let e : s.size ≡ d.size =
          sym (length-read s.size mem s.data_) ∙ ap length h ∙ length-read d.size mem d.data_ in
        let same_bytes =
          (is_same-memcmp d.size mem s.data_ d.data_).1 (ap (read mem s.data_) (sym e) ∙ h) in
        ground arith

read-add : (n m : ℕ) (mem : Mem) (p : ℕ) → read mem p (n + m) ≡ read mem p n ++ read mem (p + n) m
unfolding read
read-add zero m mem p = simp (zero-add, add-zero)
read-add (suc n) m mem p = simp (suc-add, add-suc, read-add n m mem (suc p))

append_cancel : (xs ys xs' ys' : List ℕ) → length xs ≡ length xs' → xs ++ ys ≡ xs' ++ ys' → xs ≡ xs'
append_cancel [] ys [] ys' h e = refl
append_cancel [] ys (x' ∷ xs') ys' h e = absurd (omega arith)
append_cancel (x ∷ xs) ys [] ys' h e = absurd (omega arith)
append_cancel (x ∷ xs) ys (x' ∷ xs') ys' h e = ground (arith, append_cancel xs ys xs' ys')

-- `StartWith` holds exactly when the other view's bytes, and then some, are this view's bytes.
pub start_with_iff :
    (mem : Mem) (s str : StrView)
    → (start_with mem s str ≡ true) ↔ ((rest : List ℕ) × (bytes mem s ≡ bytes mem str ++ rest))
unfolding start_with
start_with_iff mem s str = (λ h. to h, λ h. from h.0 h.1)
  where
    n : ℕ
    n = str.size

    to :
        (leb n s.size && is_same (memcmp mem s.data_ str.data_ n)) ≡ true
        → (rest : List ℕ) × (bytes mem s ≡ bytes mem str ++ rest)
    to h = (
      read mem (s.data_ + n) (s.size - n),
      ap (read mem s.data_) (ground arith)
          ∙ read-add n (s.size - n) mem s.data_
          ∙ ap (λ (l : List ℕ). l ++ read mem (s.data_ + n) (s.size - n))
              ((is_same-memcmp n mem s.data_ str.data_).0 (ground arith)),
    )

    from :
        (rest : List ℕ)
        → bytes mem s ≡ bytes mem str ++ rest
        → (leb n s.size && is_same (memcmp mem s.data_ str.data_ n)) ≡ true
    from rest e =
        let size : s.size ≡ n + length rest = omega (
          arith,
          ap length e,
          length-append {0} (bytes mem str) rest,
          length-read s.size mem s.data_,
          length-read n mem str.data_,
        ) in
        let front : read mem s.data_ n ≡ read mem str.data_ n =
          append_cancel _ (read mem (s.data_ + n) (length rest)) _ rest
            (length-read n mem s.data_ ∙ sym (length-read n mem str.data_))
            (sym (read-add n (length rest) mem s.data_) ∙ ap (read mem s.data_) (sym size) ∙ e) in
        let found = (is_same-memcmp n mem s.data_ str.data_).1 front in
        rw (le→leb n s.size (omega arith)) found
