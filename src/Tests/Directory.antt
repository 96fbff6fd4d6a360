-- ===== src/Tests/Directory.antt =====
-- src/directory.cpp on directories that are a function from paths to Booleans.
use xfutil.Base.{
  ℕ, ◌≡◌, ◌⊎◌, refl, Bool, Bool-cases, true, false, ◌||◌, inl, inr, sym, subst, List, [], ◌∷◌, ◌++◌,
  Option, none, some, ◌==◌, if◌then◌else◌,
}
use mathlib.Core.Option.{some-injective}
use xfutil.Ini.{same}
use xfutil.Ini.Dict.{same_refl, same→≡}
use xfutil.Path.{slash}
use xfutil.Queue.Runs.{Among}
use xfutil.Directory.{Directories, create_r}
use xfutil.Directory.Prefixes.{IsDirectories, Next, at, after, prefixes, create_r-true}

abbrev Paths : Type 0
Paths = List ℕ → Bool

abbrev with_path : Paths → List ℕ → Paths
with_path s p q = same q p || s q

-- What stands in front of the last slash: the directory that the path lies in. The root is the empty
-- path.
abbrev lies_in : List ℕ → List ℕ → List ℕ → List ℕ
lies_in front found [] = found
lies_in front found (c ∷ rest) =
    let here = lies_in (front ++ c ∷ []) front rest in
    let later = lies_in (front ++ c ∷ []) found rest in if c == slash then here else later

-- `mkdir` fails with `EEXIST` where the path is there, and with `ENOENT` where what it lies in is not.
abbrev mkdir : Paths → List ℕ → Option Paths
mkdir s p = if s p then none else if s (lies_in [] [] p) then some (with_path s p) else none

abbrev dirs : Directories
dirs = record { State = Paths; exist = λ s p. s p; mkdir = mkdir }

none-ne-some : {s : Paths} → none ≡ some s → ⊥
none-ne-some e = cc

mkdir_result : (s s' : Paths) (p : List ℕ) → mkdir s p ≡ some s' → with_path s p ≡ s'
mkdir_result s s' p e = elim (Bool-cases (s p)) [
  | inl is ↦ absurd (none-ne-some (rw is at e))
  | inr missing ↦ elim (Bool-cases (s (lies_in [] [] p))) [
    | inl up ↦ some-injective _ _ (rw (missing, up) at e)
    | inr none_up ↦ absurd (none-ne-some (rw (missing, none_up) at e))
  ]
]

or_true : (a b : Bool) → b ≡ true → (a || b) ≡ true
or_true true b h = refl
or_true false b h = h

has : (s : Paths) (p : List ℕ) → with_path s p p ≡ true
has s p = rw (same_refl p) refl

came : (s : Paths) (p q : List ℕ) → with_path s p q ≡ true → (s q ≡ true) ⊎ (q ≡ p)
came s p q h = elim (Bool-cases (same q p)) [
  | inl is ↦ inr (same→≡ q p is)
  | inr other ↦ inl (rw other at h)
]

dirs-IsDirectories : IsDirectories dirs
dirs-IsDirectories = record {
  made = λ s s' p e. subst (λ (f : Paths). f p ≡ true) (mkdir_result s s' p e) (has s p);
  kept = λ s s' p q e old.
      subst (λ (f : Paths). f q ≡ true) (mkdir_result s s' p e) (or_true (same q p) (s q) old);
  only = λ s s' p q e there.
      came s p q (subst (λ (f : Paths). f q ≡ true) (sym (mkdir_result s s' p e)) there);
}

-- The root is there.
abbrev none_there : Paths
none_there p = same p []

-- "/a/b"
abbrev rest : List ℕ
rest = b'a' ∷ b'/' ∷ b'b' ∷ []

no-Next : {p q x : List ℕ} → Next p q (x ∷ []) → ⊥
no-Next (after next) = elim next [ ]

create_r-true_example :
    ((create_r dirs none_there b'/' rest).1 ≡ true)
    × ((p : List ℕ)
        → Among p (prefixes (b'/' ∷ []) rest)
        → dirs.exist (create_r dirs none_there b'/' rest).0 p ≡ true)
    × ((q : List ℕ)
        → dirs.exist (create_r dirs none_there b'/' rest).0 q ≡ true
        → (dirs.exist none_there q ≡ true) ⊎ Among q (prefixes (b'/' ∷ []) rest))
    × ((q : List ℕ)
        → dirs.exist none_there q ≡ true
        → dirs.exist (create_r dirs none_there b'/' rest).0 q ≡ true)
create_r-true_example = create_r-true dirs dirs-IsDirectories none_there [] b'/' rest able refl
  where
    able :
        (s : Paths) (p q : List ℕ)
        → Next p q ([] ∷ prefixes (b'/' ∷ []) rest)
        → s p ≡ true
        → s q ≡ false
        → (s' : Paths) × (mkdir s q ≡ some s')
    able s p q at up missing = (with_path s q, rw (missing, up) refl)
    able s p q (after at) up missing = (with_path s q, rw (missing, up) refl)
    able s p q (after (after next)) up missing = absurd (no-Next next)

-- The first is there already, and `mkdir` would fail for it.
made_already : (create_r dirs (with_path none_there (b'/' ∷ b'a' ∷ [])) b'/' rest).1 ≡ true
unfolding create_r
made_already = refl

the_prefixes :
    prefixes (b'/' ∷ []) rest ≡ (b'/' ∷ b'a' ∷ []) ∷ (b'/' ∷ b'a' ∷ b'/' ∷ b'b' ∷ []) ∷ []
the_prefixes = refl
