-- ===== src/Logger/Rotation.antt =====
-- src/logger_impl.cpp: what `Rename` does to the log files.
use xfutil.Base.{
  ℕ, zero, suc, ◌+◌, ◌-◌, ◌%◌, ◌^◌, ◌≤◌, ◌<◌, ◌≡◌, ◌≢◌, refl, sym, ◌∙◌, subst, arith, Bool-cases,
  Option-cases, inl, inr, ◌==◌, List, [], ◌++◌, length, Option, none, some,
}
use xfutil.Logger.{FileSystem, LogConfig, numbered, shift, rename_files}
use xfutil.Logger.Names.{numbered_inj, numbered_ne}

abbrev pub bytes_of : Option (List ℕ) → List ℕ
bytes_of none = []
bytes_of (some bytes) = bytes

-- The documented behaviour of the file system: a failed `rename` is one of a file that there is not,
-- and a `write` writes all.
pub record IsFileSystem (fs : FileSystem) : Type 0 where
  pub unlinked : (s : fs.State) (p : List ℕ) → fs.lookup (fs.unlink s p) p ≡ none
  pub unlinked_other :
      (s : fs.State) (p q : List ℕ) → q ≢ p → fs.lookup (fs.unlink s p) q ≡ fs.lookup s q
  pub renamed_none :
      (s : fs.State) (p q r : List ℕ)
      → fs.lookup s p ≡ none
      → fs.lookup (fs.rename s p q) r ≡ fs.lookup s r
  pub renamed_to :
      (s : fs.State) (p q bytes : List ℕ)
      → fs.lookup s p ≡ some bytes
      → fs.lookup (fs.rename s p q) q ≡ some bytes
  pub renamed_from : (s : fs.State) (p q : List ℕ) → p ≢ q → fs.lookup (fs.rename s p q) p ≡ none
  pub renamed_other :
      (s : fs.State) (p q r : List ℕ)
      → r ≢ p
      → r ≢ q
      → fs.lookup (fs.rename s p q) r ≡ fs.lookup s r
  pub opened :
      (s s' : fs.State) (p : List ℕ)
      → fs.open_ s p ≡ some s'
      → fs.lookup s' p ≡ some (bytes_of (fs.lookup s p))
  pub opened_other :
      (s s' : fs.State) (p q : List ℕ)
      → fs.open_ s p ≡ some s'
      → q ≢ p
      → fs.lookup s' q ≡ fs.lookup s q
  pub appended :
      (s : fs.State) (p bytes data_ : List ℕ)
      → fs.lookup s p ≡ some bytes
      → fs.lookup (fs.append s p data_) p ≡ some (bytes ++ data_)
  pub appended_other :
      (s : fs.State) (p data_ q : List ℕ)
      → q ≢ p
      → fs.lookup (fs.append s p data_) q ≡ fs.lookup s q
  pub sized :
      (s : fs.State) (p bytes : List ℕ) → fs.lookup s p ≡ some bytes → fs.size s p ≡ length bytes

module _ (fs : FileSystem) (laws : IsFileSystem fs) where
  -- A file goes to a name that is free.
  moved :
      (s : fs.State) (p q : List ℕ)
      → p ≢ q
      → fs.lookup s q ≡ none
      → fs.lookup (fs.rename s p q) q ≡ fs.lookup s p
  moved s p q ne free = elim (Option-cases (fs.lookup s p)) [
    | inl at ↦ laws.renamed_none s p q q at ∙ free ∙ sym at
    | inr (bytes, at) ↦ laws.renamed_to s p q bytes at ∙ sym at
  ]

  module _ (conf : LogConfig) (short : length conf.file_path ≤ 244) where
    abbrev name : ℕ → List ℕ
    name = numbered fs conf

    names_ne : (i j : ℕ) → i < 2 ^ 32 → j < 2 ^ 32 → i ≢ j → name i ≢ name j
    names_ne i j hi hj ne same = ne (numbered_inj fs conf short i j hi hj same)

    -- What the loop leaves, where the last name is free: each file has gone up by one.
    record Shifted (i : ℕ) (s s' : fs.State) : Type 0 where
      first : fs.lookup s' (name 1) ≡ none
      up : (k : ℕ) → 0 < k → k ≤ i → fs.lookup s' (name (suc k)) ≡ fs.lookup s (name k)
      others :
          (q : List ℕ) → ((k : ℕ) → 0 < k → k ≤ suc i → q ≢ name k) → fs.lookup s' q ≡ fs.lookup s q

    shift-Shifted :
        (i : ℕ) (s : fs.State)
        → i < 2 ^ 16
        → fs.lookup s (name (suc i)) ≡ none
        → Shifted i s (shift fs conf i s)
    unfolding shift
    shift-Shifted zero s small free = record {
      first = free;
      up = λ k some_k none_k. absurd (omega (arith, some_k, none_k));
      others = λ q ne. refl;
    }
    shift-Shifted (suc i) s small free =
        let s1 = fs.rename s (name (suc i)) (name (suc (suc i))) in
        let ne =
          names_ne (suc i) (suc (suc i)) (omega (arith, small)) (omega (arith, small))
            (λ e. omega (arith, e)) in
        let rest = shift-Shifted i s1 (omega (arith, small)) (laws.renamed_from s _ _ ne) in
        record {
          first = rest.first;
          up = λ k some_k le. elim (Bool-cases (k == suc i)) [
            | inl same ↦
                let is : suc i ≡ k = ground arith in
                subst (λ k. fs.lookup (shift fs conf i s1) (name (suc k)) ≡ fs.lookup s (name k)) is
                  (rest.others (name (suc (suc i))) (λ k _ le'.
                      names_ne (suc (suc i)) k (omega (arith, small)) (omega (arith, small, le'))
                        (λ e. omega (arith, e, le')))
                    ∙ moved s _ _ ne free)
            | inr differs ↦
                let low : k ≤ i = ground arith in
                rest.up k some_k low
                ∙ laws.renamed_other s _ _ (name k)
                    (names_ne k (suc i) (omega (arith, small, low)) (omega (arith, small))
                      (λ e. omega (arith, e, low)))
                    (names_ne k (suc (suc i)) (omega (arith, small, low)) (omega (arith, small))
                      (λ e. omega (arith, e, low)))
          ];
          others = λ q ne_all.
              rest.others q (λ k some_k le. ne_all k some_k (omega (arith, le)))
              ∙ laws.renamed_other s _ _ q (ne_all (suc i) (omega arith) (omega arith))
                  (ne_all (suc (suc i)) (omega arith) (omega arith));
        }

    -- Where the log files go: the current one to 1, the one with the number `k` to `k` + 1, and the last
    -- one away.
    pub record Rotated (s s' : fs.State) : Type 0 where
      pub current : fs.lookup s' conf.file_path ≡ none
      pub first : fs.lookup s' (name 1) ≡ fs.lookup s conf.file_path
      pub up :
          (k : ℕ)
          → 0 < k
          → k < conf.max_file_num
          → fs.lookup s' (name (suc k)) ≡ fs.lookup s (name k)
      pub others :
          (q : List ℕ)
          → q ≢ conf.file_path
          → ((k : ℕ) → 0 < k → k ≤ conf.max_file_num → q ≢ name k)
          → fs.lookup s' q ≡ fs.lookup s q

    -- `Rename`, for a number of files from 1 to 65,535 and a path of at most 244 bytes, moves the log to
    -- the file 1 and each file below the last number to the next number, so that the file with the last
    -- number is lost; it leaves no file with the log's own name, and every other file as it was.
    pub rename_files-Rotated :
        (s : fs.State)
        → 0 < conf.max_file_num
        → conf.max_file_num < 2 ^ 16
        → Rotated s (rename_files fs conf s)
    unfolding rename_files
    rename_files-Rotated s some_files few =
        let n = conf.max_file_num in
        let count : (n + 2 ^ 16 - 1) % 2 ^ 16 ≡ n - 1 = omega (arith, some_files, few) in
        let last : suc (n - 1) ≡ n = omega (arith, some_files) in
        let s0 = fs.unlink s (name n) in
        let shifted =
          shift-Shifted (n - 1) s0 (omega (arith, few)) (rw last (laws.unlinked s (name n))) in
        subst (λ i. Rotated s (fs.rename (shift fs conf i s0) conf.file_path (name 1))) (sym count)
          (rotated (shift fs conf (n - 1) s0) shifted)
      where
        rotated :
            (s1 : fs.State)
            → Shifted (conf.max_file_num - 1) (fs.unlink s (name conf.max_file_num)) s1
            → Rotated s (fs.rename s1 conf.file_path (name 1))
        rotated s1 shifted = record {
          current = laws.renamed_from s1 _ _ (λ e. numbered_ne fs conf short 1 (sym e));
          first =
              moved s1 _ _ (λ e. numbered_ne fs conf short 1 (sym e)) shifted.first
              ∙ shifted.others conf.file_path (λ k _ _ e. numbered_ne fs conf short k (sym e))
              ∙ laws.unlinked_other s _ _
                  (λ e. numbered_ne fs conf short conf.max_file_num (sym e));
          up = λ k some_k less.
              laws.renamed_other s1 _ _ (name (suc k)) (numbered_ne fs conf short (suc k)) (
                names_ne (suc k) 1 (omega (arith, few, less)) (omega arith)
                  (λ e. omega (arith, e, some_k)))
              ∙ shifted.up k some_k (omega (arith, less))
              ∙ laws.unlinked_other s _ (name k) (
                  names_ne k conf.max_file_num (omega (arith, few, less)) (omega (arith, few))
                    (λ e. omega (arith, e, less)));
          others = λ q ne ne_all.
              laws.renamed_other s1 _ _ q ne (ne_all 1 (omega arith) (omega (arith, some_files)))
              ∙ shifted.others q (λ k some_k le. ne_all k some_k (omega (arith, le, some_files)))
              ∙ laws.unlinked_other s _ q (ne_all conf.max_file_num some_files (omega arith));
        }
