-- ===== src/Str/Trim.antt =====
-- src/strutil.cpp: `TrimLeft`, `TrimRight` and `GetPrefixLength` of a view.
use xfutil.Base.{
  ℕ, zero, suc, ◌+◌, ◌-◌, ◌^◌, ◌≤◌, ◌<◌, ◌≡◌, refl, ap, ap₂, sym, subst, ◌∙◌, arith, true, false,
  ◌==◌, if◌then◌else◌, List, [], ◌∷◌, ◌++◌, All, Bool-cases, inl, inr, append-nil, append_assoc,
}
use xfutil.Memory.{Mem, read}
use xfutil.Memory.Laws.{read-suc}
use xfutil.Coding.Text.{StrView}
use xfutil.Str.Order.{min_of-suc}
use xfutil.Str.{
  bytes, is_blank, min_of, skip_left, skip_right, trim_left, trim_right, prefix_loop,
  get_prefix_length,
}
use native.Mathlib.Nat.{mod-eq_of_lt}

abbrev pub Blank : ℕ → Type 0
Blank c = is_blank c ≡ true

-- The first, or the last, character is no blank, if there is one.
abbrev pub StartsInk : List ℕ → Type 0
StartsInk [] = Unit
StartsInk (c ∷ cs) = is_blank c ≡ false

abbrev pub EndsInk : List ℕ → Type 0
EndsInk [] = Unit
EndsInk (c ∷ []) = is_blank c ≡ false
EndsInk (c ∷ d ∷ cs) = EndsInk (d ∷ cs)

LeftSplit : Mem → ℕ → ℕ → ℕ → Type 0
LeftSplit mem p n k =
    (skipped : List ℕ) × (read mem p n ≡ skipped ++ read mem (p + k) (n - k))
    × All Blank skipped
    × StartsInk (read mem (p + k) (n - k))

skip_left-LeftSplit : (n : ℕ) (mem : Mem) (p : ℕ) → LeftSplit mem p n (skip_left mem p n)
unfolding LeftSplit skip_left read
skip_left-LeftSplit zero mem p = ([], refl, tt, tt)
skip_left-LeftSplit (suc n) mem p = elim (Bool-cases (is_blank (mem p))) [
  | inl blank ↦
      let (skipped, e, all, ink) = skip_left-LeftSplit n mem (suc p) in
      let k = skip_left mem (suc p) n in
      let move : read mem (suc p + k) (n - k) ≡ read mem (p + suc k) (suc n - suc k) =
        ap₂ (read mem) (omega arith) (omega arith) in
      rw (blank, skip_left)
        (
          mem p ∷ skipped,
          ap (◌∷◌ (mem p)) (e ∙ ap (◌++◌ skipped) move),
          (blank, all),
          subst StartsInk move ink,
        )
  | inr ink ↦
      let stay : read mem p (suc n) ≡ read mem (p + 0) (suc n - 0) =
        ap₂ (read mem) {x = p} {y = p + 0} {u = suc n} {v = suc n - 0} (omega arith)
          (omega arith) in
      rw (ink, skip_left) ([], stay, tt, subst StartsInk stay ink)
]

-- `TrimLeft` drops a run of blanks at the front: what it leaves shows the rest of the bytes, and does
-- not start with a blank.
pub trim_left-bytes :
    (mem : Mem) (s : StrView)
    → (skipped : List ℕ) × (bytes mem s ≡ skipped ++ bytes mem (trim_left mem s))
      × All Blank skipped
      × StartsInk (bytes mem (trim_left mem s))
unfolding trim_left LeftSplit
trim_left-bytes mem s = skip_left-LeftSplit s.size mem s.data_

RightSplit : Mem → ℕ → ℕ → ℕ → Type 0
RightSplit mem p n k =
    (skipped : List ℕ) × (read mem p n ≡ read mem p (n - k) ++ skipped)
    × All Blank skipped
    × EndsInk (read mem p (n - k))

EndsInk-read :
    (n : ℕ) (mem : Mem) (p : ℕ) → is_blank (mem (p + n)) ≡ false → EndsInk (read mem p (suc n))
unfolding read
EndsInk-read zero mem p h = subst (λ (q : ℕ). is_blank (mem q) ≡ false) (omega arith) h
EndsInk-read (suc n) mem p h =
    EndsInk-read n mem (suc p) (subst (λ (q : ℕ). is_blank (mem q) ≡ false) (omega arith) h)

All-snoc : (xs : List ℕ) (c : ℕ) → All Blank xs → Blank c → All Blank (xs ++ c ∷ [])
All-snoc [] c h hc = (hc, tt)
All-snoc (x ∷ xs) c (h, hs) hc = (h, All-snoc xs c hs hc)

skip_right-RightSplit : (n : ℕ) (mem : Mem) (p : ℕ) → RightSplit mem p n (skip_right mem p n)
unfolding RightSplit skip_right
skip_right-RightSplit zero mem p = ([], unfold read in refl, tt, unfold read in tt)
skip_right-RightSplit (suc n) mem p = elim (Bool-cases (is_blank (mem (p + n)))) [
  | inl blank ↦
      let (skipped, e, all, ink) = skip_right-RightSplit n mem p in
      let k = skip_right mem p n in
      let move : read mem p (n - k) ≡ read mem p (suc n - suc k) = ap (read mem p) (omega arith) in
      let last : List ℕ = mem (p + n) ∷ [] in
      rw (blank, skip_right)
        (
          skipped ++ last,
          read-suc n mem p
              ∙ ap (λ (l : List ℕ). l ++ last) e
              ∙ append_assoc (read mem p (n - k)) skipped last
              ∙ ap (λ (l : List ℕ). l ++ (skipped ++ last)) move,
          All-snoc skipped (mem (p + n)) all blank,
          subst EndsInk move ink,
        )
  | inr ink ↦
      let stay : read mem p (suc n) ≡ read mem p (suc n - 0) = ap (read mem p) (omega arith) in
      rw (ink, skip_right)
        ([], stay ∙ sym (append-nil _), tt, subst EndsInk stay (EndsInk-read n mem p ink))
]

-- `TrimRight` drops a run of blanks at the back: what it leaves shows the rest of the bytes, and does
-- not end with a blank.
pub trim_right-bytes :
    (mem : Mem) (s : StrView)
    → (skipped : List ℕ) × (bytes mem s ≡ bytes mem (trim_right mem s) ++ skipped)
      × All Blank skipped
      × EndsInk (bytes mem (trim_right mem s))
unfolding trim_right RightSplit
trim_right-bytes mem s = skip_right-RightSplit s.size mem s.data_

skip_left_high :
    (n : ℕ) (mem : Mem) (p : ℕ) → All (λ c. 0x80 ≤ c) (read mem p n) → skip_left mem p n ≡ n
unfolding skip_left read
skip_left_high zero mem p h = refl
skip_left_high (suc n) mem p (h, hs) = ground (arith, skip_left_high n mem (suc p) hs)

-- A view whose bytes are all 0x80 or above, such as UTF-8 text outside ASCII, is trimmed to nothing.
pub trim_left_high :
    (mem : Mem) (s : StrView) → All (λ c. 0x80 ≤ c) (bytes mem s) → (trim_left mem s).size ≡ 0
unfolding trim_left
trim_left_high mem s h = omega (arith, skip_left_high s.size mem s.data_ h)

-- How many leading bytes two lists share.
abbrev pub common : List ℕ → List ℕ → ℕ
common [] ys = 0
common (x ∷ xs) [] = 0
common (x ∷ xs) (y ∷ ys) = if x == y then suc (common xs ys) else 0

prefix_loop-common :
    (n m : ℕ) (mem : Mem) (a b : ℕ)
    → prefix_loop mem a b (min_of n m) ≡ common (read mem a n) (read mem b m)
unfolding prefix_loop read
prefix_loop-common zero zero mem a b = refl
prefix_loop-common zero (suc m) mem a b = ground arith
prefix_loop-common (suc n) zero mem a b = ground arith
prefix_loop-common (suc n) (suc m) mem a b =
    rw (min_of-suc n m) (ground (arith, prefix_loop-common n m mem (suc a) (suc b)))

-- For views below 4 GiB `GetPrefixLength` is the number of leading bytes that they share.
pub get_prefix_length-common :
    (mem : Mem) (s str : StrView)
    → s.size < 2 ^ 32
    → get_prefix_length mem s str ≡ common (bytes mem s) (bytes mem str)
unfolding get_prefix_length
get_prefix_length-common mem s str h =
    ap (prefix_loop mem s.data_ str.data_) (mod-eq_of_lt (ground arith))
    ∙ prefix_loop-common s.size str.size mem s.data_ str.data_
