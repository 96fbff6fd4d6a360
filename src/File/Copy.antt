-- ===== src/File/Copy.antt =====
-- src/file.cpp: what `Copy` leaves in the destination.
use xfutil.Base.{
  ℕ, ◌≡◌, ap, sym, subst, ◌∙◌, arith, Bool, true, false, Bool-cases, inl, inr, ◌==◌, ==_refl,
  Option, none, some, ◌↔◌, List, [], ◌∷◌, ◌++◌, append_assoc, append-nil, length,
}
use mathlib.Core.Option.{some-injective}
use xfutil.File.{copy_loop, copy}

-- The bytes that the reads give up to the end of the file.
abbrev pub up_to_end : List (Option (List ℕ)) → List ℕ
up_to_end [] = []
up_to_end (none ∷ reads) = []
up_to_end (some [] ∷ reads) = []
up_to_end (some (b ∷ bytes) ∷ reads) = (b ∷ bytes) ++ up_to_end reads

-- Reads without an error up to the end of the file, and writes that are full.
pub data Runs : List (Option (List ℕ)) → List (Option ℕ) → Type 0 where
  end : (reads : List (Option (List ℕ))) (writes : List (Option ℕ)) → Runs (some [] ∷ reads) writes
  block :
      (b : ℕ) (bytes : List ℕ) (reads : List (Option (List ℕ))) (writes : List (Option ℕ))
      → Runs reads writes
      → Runs (some (b ∷ bytes) ∷ reads) (some (length (b ∷ bytes)) ∷ writes)

copy_loop-Runs :
    (reads : List (Option (List ℕ))) (writes : List (Option ℕ)) (dst : List ℕ)
    → Runs reads writes
    → copy_loop reads writes dst ≡ some (true, dst ++ up_to_end reads)
unfolding copy_loop
copy_loop-Runs _ _ dst (end reads writes) = ap (λ bs. some (true, bs)) (sym (append-nil dst))
copy_loop-Runs _ _ dst (block b bytes reads writes r) = rw (==_refl (length (b ∷ bytes))) (
    copy_loop-Runs reads writes (dst ++ b ∷ bytes) r
    ∙ ap (λ bs. some (true, bs)) (append_assoc dst (b ∷ bytes) (up_to_end reads)))

none-ne : {A : Type 0} {a : A} → none ≡ some a → ⊥
none-ne e = cc

false-ne : {a b : List ℕ} → ◌≡◌ {A = Option (Bool × List ℕ)} (some (false, a)) (some (true, b)) → ⊥
false-ne e = cc

copy_loop-true :
    (reads : List (Option (List ℕ))) (writes : List (Option ℕ)) (dst out : List ℕ)
    → copy_loop reads writes dst ≡ some (true, out)
    → Runs reads writes
unfolding copy_loop
copy_loop-true [] writes dst out h = absurd (none-ne h)
copy_loop-true (none ∷ reads) writes dst out h = absurd (false-ne h)
copy_loop-true (some [] ∷ reads) writes dst out h = end reads writes
copy_loop-true (some (b ∷ bytes) ∷ reads) [] dst out h = absurd (none-ne h)
copy_loop-true (some (b ∷ bytes) ∷ reads) (none ∷ writes) dst out h = absurd (false-ne h)
copy_loop-true (some (b ∷ bytes) ∷ reads) (some n ∷ writes) dst out h =
    elim (Bool-cases (n == length (b ∷ bytes))) [
      | inl full ↦
          let full_is : length (b ∷ bytes) ≡ n = ground arith in
          subst (λ k. Runs (some (b ∷ bytes) ∷ reads) (some k ∷ writes)) full_is
            (block b bytes reads writes
              (copy_loop-true reads writes (dst ++ b ∷ bytes) out (rw full at h)))
      | inr short ↦ absurd (false-ne (rw short at h))
    ]

-- `Copy`, where both files open, returns true exactly where the reads meet no error before the end of
-- the source and each write is full, and the destination then has the bytes of the source up to its
-- end and no others.
pub copy_iff :
    (reads : List (Option (List ℕ))) (writes : List (Option ℕ)) (old out : List ℕ)
    → (copy true true reads writes old ≡ some (true, out))
      ↔ (Runs reads writes × (out ≡ up_to_end reads))
unfolding copy
copy_iff reads writes old out = (
  λ h.
      let r = copy_loop-true reads writes [] out h in
      (
        r,
        sym (
            ap (λ (p : Bool × List ℕ). p.1)
              (some-injective _ _ (sym (copy_loop-Runs reads writes [] r) ∙ h))),
      ),
  λ h. copy_loop-Runs reads writes [] h.0 ∙ ap (λ bs. some (true, bs)) (sym h.1),
)
