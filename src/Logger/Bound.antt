-- ===== src/Logger/Bound.antt =====
-- src/logger_impl.cpp: how much of the text a rotation can drop.
use xfutil.Base.{
  ℕ, zero, suc, ◌+◌, ◌-◌, ◌*◌, ◌≤◌, ◌<◌, ◌≡◌, ap, sym, ◌∙◌, subst, arith, Bool-cases, ◌⊎◌, inl, inr,
  ltb, List, ◌++◌, append_assoc, length, length-append,
}
use native.Mathlib.Nat.{suc-mul}
use xfutil.Logger.{FileSystem, LogConfig, numbered}
use xfutil.Logger.History.{text, older, history}

module _ (fs : FileSystem) (conf : LogConfig) where
  -- All that is missing stood in the files with a number, at the time of `before`; or all files with a
  -- number are full.
  pub data Bound (before after : fs.State) (dropped : List ℕ) : Type 0 where
    early :
        (rotations : ℕ)
        → rotations < conf.max_file_num
        → ((i : ℕ)
            → 0 < i
            → i ≤ rotations
            → conf.max_file_size ≤ length (text fs conf after (numbered fs conf i)))
        → ((i : ℕ)
            → 0 < i
            → i + rotations ≤ conf.max_file_num
            → text fs conf after (numbered fs conf (i + rotations))
              ≡ text fs conf before (numbered fs conf i))
        → dropped ++ older fs conf before (conf.max_file_num - rotations)
          ≡ older fs conf before conf.max_file_num
        → Bound before after dropped
    full :
        ((i : ℕ)
          → 0 < i
          → i ≤ conf.max_file_num
          → conf.max_file_size ≤ length (text fs conf after (numbered fs conf i)))
        → Bound before after dropped

  -- The text of the files is what it was before and then the new text, but for what was dropped.
  pub record Keeps (before : fs.State) (new : List ℕ) (after : fs.State) : Type 0 where
    pub dropped : List ℕ
    pub shows : dropped ++ history fs conf after ≡ history fs conf before ++ new
    pub bound : Bound before after dropped

  -- The files with a number move up, and the log becomes the first.
  pub record Moves (s s' : fs.State) : Type 0 where
    pub keeps :
        text fs conf s (numbered fs conf conf.max_file_num) ++ history fs conf s'
        ≡ history fs conf s
    pub up :
        (i : ℕ)
        → 0 < i
        → i < conf.max_file_num
        → text fs conf s' (numbered fs conf (suc i)) ≡ text fs conf s (numbered fs conf i)
    pub first : text fs conf s' (numbered fs conf 1) ≡ text fs conf s conf.file_path

  older-full :
      (k : ℕ) (s : fs.State)
      → ((i : ℕ)
          → 0 < i
          → i ≤ k
          → conf.max_file_size ≤ length (text fs conf s (numbered fs conf i)))
      → k * conf.max_file_size ≤ length (older fs conf s k)
  older-full zero s h = omega arith
  older-full (suc k) s h = omega (
    arith,
    suc-mul k conf.max_file_size,
    h (suc k) (omega arith) (omega arith),
    older-full k s (λ i pos le. h i pos (omega (arith, le))),
    length-append (text fs conf s (numbered fs conf (suc k))) (older fs conf s k),
  )

  -- What is missing is the beginning of what stood in the files with a number, or these are full.
  pub Bound-missing :
      (before after : fs.State) (dropped : List ℕ)
      → Bound before after dropped
      → ((kept : List ℕ) × (dropped ++ kept ≡ older fs conf before conf.max_file_num))
        ⊎ (conf.max_file_num * conf.max_file_size ≤ length (older fs conf after conf.max_file_num))
  Bound-missing before after dropped (early r less fulls moved gone) =
      inl (older fs conf before (conf.max_file_num - r), gone)
  Bound-missing before after dropped (full fulls) = inr (older-full conf.max_file_num after fulls)

  -- One rotation of a full log.
  pub Bound-Moves :
      (before s s' : fs.State) (dropped : List ℕ)
      → Bound before s dropped
      → Moves s s'
      → conf.max_file_size ≤ length (text fs conf s conf.file_path)
      → 0 < conf.max_file_num
      → Bound before s' (dropped ++ text fs conf s (numbered fs conf conf.max_file_num))
  Bound-Moves before s s' dropped b m big some_files = next b
    where
      N : ℕ
      N = conf.max_file_num

      filled :
          (n : ℕ)
          → n < N
          → ((i : ℕ)
              → 0 < i
              → i ≤ n
              → conf.max_file_size ≤ length (text fs conf s (numbered fs conf i)))
          → (i : ℕ) → 0 < i
          → i ≤ suc n
          → conf.max_file_size ≤ length (text fs conf s' (numbered fs conf i))
      filled n less fulls zero pos le = absurd (omega (arith, pos))
      filled n less fulls (suc zero) pos le =
          subst (λ xs. conf.max_file_size ≤ length xs) (sym m.first) big
      filled n less fulls (suc (suc i)) pos le =
          subst (λ xs. conf.max_file_size ≤ length xs)
            (sym (m.up (suc i) (omega arith) (omega (arith, le, less))))
            (fulls (suc i) (omega arith) (omega (arith, le)))

      next :
          Bound before s dropped → Bound before s' (dropped ++ text fs conf s (numbered fs conf N))
      next (full fulls) = full (λ i pos le.
          filled (N - 1) (omega arith) (λ j pos' le'. fulls j pos' (omega (arith, le'))) i pos
            (omega (arith, le)))
      next (early r less fulls moved gone) = elim (Bool-cases (ltb (suc r) N)) [
        | inl more ↦
            let k : ℕ = N - suc r in
            let top : suc k + r ≡ N = omega (arith, less) in
            let one_less : suc k ≡ N - r = omega (arith, less) in
            early (suc r) (ground arith) (λ i pos le. filled r less fulls i pos le)
              (λ i pos le.
                let shift : suc (i + r) ≡ i + suc r = omega arith in
                subst
                  (λ n.
                    text fs conf s' (numbered fs conf n) ≡ text fs conf before (numbered fs conf i))
                  shift
                  (m.up (i + r) (omega (arith, pos)) (omega (arith, le))
                    ∙ moved i pos (omega (arith, le))))
              (append_assoc dropped (text fs conf s (numbered fs conf N)) (older fs conf before k)
                ∙ ap (◌++◌ dropped) (
                    ap (λ (xs : List ℕ). xs ++ older fs conf before k)
                      (subst
                        (λ n.
                          text fs conf s (numbered fs conf n)
                          ≡ text fs conf before (numbered fs conf (suc k)))
                        top (moved (suc k) (omega arith) (omega (arith, top))))
                    ∙ ap (older fs conf before) one_less)
                ∙ gone)
        | inr last ↦ full (λ i pos le. filled r less fulls i pos (ground (arith, le)))
      ]

  pub Bound-others :
      (before s s' : fs.State) (dropped : List ℕ)
      → ((i : ℕ) → text fs conf s' (numbered fs conf i) ≡ text fs conf s (numbered fs conf i))
      → Bound before s dropped
      → Bound before s' dropped
  Bound-others before s s' dropped same (full fulls) =
      full
        (λ i pos le. subst (λ xs. conf.max_file_size ≤ length xs) (sym (same i)) (fulls i pos le))
  Bound-others before s s' dropped same (early r less fulls moved gone) =
      early r less
        (λ i pos le. subst (λ xs. conf.max_file_size ≤ length xs) (sym (same i)) (fulls i pos le))
        (λ i pos le. same (i + r) ∙ moved i pos le) gone
