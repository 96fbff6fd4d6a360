-- ===== src/Tests/File.antt =====
-- src/file.cpp at concrete inputs.
use xfutil.Base.{
  ℕ, ◌≡◌, ◌↔◌, zero, suc, refl, inr, arith, true, false, List, [], ◌∷◌, Option, none, some, ltb,
  if◌then◌else◌, ◌<◌,
}
use xfutil.Aio.Process.{Sys, pwrite}
use xfutil.File.{File, eintr, copy_loop, copy}
use xfutil.File.Retry.{writes_to, run, run-first}
use xfutil.File.Copy.{Runs, up_to_end, copy_iff}

-- Two interrupted calls, and then one that fails with `EIO`.
abbrev sys : ℕ → Sys
sys k call = if ltb k 2 then (none, eintr) else (none, 5)

abbrev opened : File
opened = record { fid = some 3 }

run-first_example : run 5 sys opened (writes_to 4096 100 10) ≡ some none
run-first_example =
    run-first 2 5 5 sys opened (writes_to 4096 100 10) none (omega arith) early refl
      (inr (λ e. omega (arith, e)))
  where
    early : (j : ℕ) → j < 2 → sys j (pwrite 3 100 10 4096) ≡ (none, 4)
    early zero h = refl
    early (suc zero) h = refl
    early (suc (suc j)) h = absurd (omega (arith, h))

abbrev reads : List (Option (List ℕ))
reads = some (1 ∷ 2 ∷ []) ∷ some (3 ∷ []) ∷ some [] ∷ []

abbrev writes : List (Option ℕ)
writes = some 2 ∷ some 1 ∷ []

copy_iff_example :
    (copy true true reads writes [] ≡ some (true, 1 ∷ 2 ∷ 3 ∷ []))
    ↔ (Runs reads writes × (◌≡◌ {A = List ℕ} (1 ∷ 2 ∷ 3 ∷ []) (up_to_end reads)))
copy_iff_example = copy_iff reads writes [] (1 ∷ 2 ∷ 3 ∷ [])

-- A short write ends the copy.
short : copy true true reads (some 2 ∷ some 0 ∷ []) [] ≡ some (false, 1 ∷ 2 ∷ [])
unfolding copy copy_loop
short = refl
