-- ===== src/Logger/Kept.antt =====
-- src/logger_impl.cpp: the bound on what is dropped, over all that the thread does.
use xfutil.Base.{
  ℕ, suc, ◌+◌, ◌-◌, ◌%◌, ◌^◌, ◌≤◌, ◌<◌, ◌≡◌, refl, ap, ap₂, sym, ◌∙◌, subst, arith, Bool-cases, inl,
  inr, leb, true, List, [], ◌∷◌, ◌++◌, append-nil, append_assoc, length, map, Option, none, some,
}
use mathlib.Core.Option.{some-injective}
use xfutil.Logger.{
  FileSystem, LogConfig, LogData, Logger, numbered, rename_files, reopen, write, log_thread,
  started, start,
}
use xfutil.Logger.Names.{numbered_ne}
use xfutil.Logger.Rotation.{bytes_of, rename_files-Rotated}
use xfutil.Logger.History.{
  text, older, history, IsOpen, IsUsable, older-others, history-Rotated, written, written-history,
  written-Extends, write-Extends,
}
use xfutil.Logger.Run.{texts}
use xfutil.Logger.Bound.{early, Keeps, Moves, Bound-Moves, Bound-others}

module _ (fs : FileSystem) (conf : LogConfig) (use_ : IsUsable fs conf) where
  reopen-Moves : (l : Logger fs) → Moves fs conf l.files (reopen fs conf l).0.files
  unfolding reopen
  reopen-Moves l =
      let s' = rename_files fs conf l.files in
      let r = rename_files-Rotated fs use_.laws conf use_.short l.files use_.some_files use_.few in
      let (s'', opens) = use_.opens s' in
      let empty : fs.lookup s'' conf.file_path ≡ some [] =
        use_.laws.opened s' s'' conf.file_path opens ∙ ap (λ o. some (bytes_of o)) r.current in
      let same : (i : ℕ) → fs.lookup s'' (numbered fs conf i) ≡ fs.lookup s' (numbered fs conf i) =
        λ i.
          use_.laws.opened_other s' s'' conf.file_path _ opens (numbered_ne fs conf use_.short i) in
      rw opens (record {
        keeps =
            ap (◌++◌ (text fs conf l.files (numbered fs conf conf.max_file_num))) (
              ap₂ (λ (xs : List ℕ) (o : Option (List ℕ)). xs ++ bytes_of o)
                (older-others fs conf use_ conf.max_file_num s' s'' same) empty
              ∙ append-nil _)
            ∙ history-Rotated fs conf use_ l.files s' r;
        up = λ i pos less. ap bytes_of (same (suc i) ∙ r.up i pos less);
        first = ap bytes_of (same 1 ∙ r.first);
      })

  written-Keeps :
      (before : fs.State) (xs : List ℕ) (l : Logger fs) (d : LogData)
      → IsOpen fs conf l
      → Keeps fs conf before xs l.files
      → Keeps fs conf before (xs ++ d.bytes) (written fs conf use_ l d).files
  written-Keeps before xs l d o k = record {
    dropped = k.dropped;
    shows =
        ap (◌++◌ k.dropped) (written-history fs conf use_ l d o)
        ∙ sym (append_assoc k.dropped (history fs conf l.files) d.bytes)
        ∙ ap (λ (t : List ℕ). t ++ d.bytes) k.shows
        ∙ append_assoc (history fs conf before) xs d.bytes;
    bound =
        Bound-others fs conf before l.files (written fs conf use_ l d).files k.dropped
          (λ i. ap bytes_of (
            use_.laws.appended_other l.files conf.file_path d.bytes _
              (numbered_ne fs conf use_.short i)))
          k.bound;
  }

  reopen-Keeps :
      (before : fs.State) (xs : List ℕ) (l : Logger fs)
      → conf.max_file_size ≤ length (text fs conf l.files conf.file_path)
      → Keeps fs conf before xs l.files
      → Keeps fs conf before xs (reopen fs conf l).0.files
  reopen-Keeps before xs l big k =
      let m = reopen-Moves l in
      let oldest = text fs conf l.files (numbered fs conf conf.max_file_num) in
      record {
        dropped = k.dropped ++ oldest;
        shows =
            append_assoc k.dropped oldest (history fs conf (reopen fs conf l).0.files)
            ∙ ap (◌++◌ k.dropped) m.keeps
            ∙ k.shows;
        bound =
            Bound-Moves fs conf before l.files (reopen fs conf l).0.files k.dropped k.bound m big
              use_.some_files;
      }

  write-Keeps :
      (before : fs.State) (xs : List ℕ) (l : Logger fs) (d : LogData)
      → IsOpen fs conf l
      → Keeps fs conf before xs l.files
      → Keeps fs conf before (xs ++ d.bytes) (write fs conf l d).files
  unfolding write
  write-Keeps before xs l d o k =
      let w = written fs conf use_ l d in
      let w_open = (written-Extends fs conf use_ l d o).open_log in
      let w_keeps = written-Keeps before xs l d o k in
      elim (Bool-cases (leb conf.max_file_size w.filesize)) [
        | inl over ↦
            let bytes : text fs conf w.files conf.file_path ≡ w_open.bytes =
              ap bytes_of w_open.has in
            let big : conf.max_file_size ≤ length (text fs conf w.files conf.file_path) =
              ground (arith, ap length bytes, w_open.filesize) in
            rw (o.is_open, over) (reopen-Keeps before (xs ++ d.bytes) w big w_keeps)
        | inr room ↦ rw (o.is_open, room) w_keeps
      ]

  none-ne-some : {l : Logger fs} → none ≡ some l → ⊥
  none-ne-some e = cc

  pub log_thread-Keeps :
      (before : fs.State) (xs : List ℕ) (l l' : Logger fs) (lines : List LogData)
      (rest : List (Option LogData))
      → IsOpen fs conf l
      → Keeps fs conf before xs l.files
      → log_thread fs conf l (map some lines ++ none ∷ rest) ≡ some l'
      → Keeps fs conf before (xs ++ texts lines) l'.files
  unfolding log_thread
  log_thread-Keeps before xs l l' [] rest o k ends =
      let same : l ≡ l' = some-injective _ _ ends in
      subst (λ (t : List ℕ). Keeps fs conf before t l'.files) (sym (append-nil xs))
        (subst (λ (m : Logger fs). Keeps fs conf before xs m.files) same k)
  log_thread-Keeps before xs l l' (d ∷ lines) rest o k ends =
      subst (λ (t : List ℕ). Keeps fs conf before t l'.files)
        (append_assoc xs d.bytes (texts lines))
        (log_thread-Keeps before (xs ++ d.bytes) (write fs conf l d) l' lines rest
          (write-Extends fs conf use_ l d o).0.open_log (write-Keeps before xs l d o k) ends)

  pub start-Keeps :
      (s : fs.State) (l : Logger fs)
      → length (text fs conf s conf.file_path) < 2 ^ 64
      → start fs conf s ≡ some l
      → IsOpen fs conf l × Keeps fs conf s [] l.files
  unfolding start
  start-Keeps s l small starts =
      let (s', opens) = use_.opens s in
      let has = use_.laws.opened s s' conf.file_path opens in
      let same : (i : ℕ) → fs.lookup s' (numbered fs conf i) ≡ fs.lookup s (numbered fs conf i) =
        λ i.
          use_.laws.opened_other s s' conf.file_path _ opens (numbered_ne fs conf use_.short i) in
      let is : record {
        is_open = true;
        filesize = fs.size s' conf.file_path;
        files = s';
        freed = [];
      }
          ≡ l =
        some-injective _ _ (sym (ap (started fs conf) opens) ∙ starts) in
      subst (λ (m : Logger fs). IsOpen fs conf m × Keeps fs conf s [] m.files) is
        (
          record {
            is_open = refl;
            bytes = text fs conf s conf.file_path;
            has = has;
            filesize = use_.laws.sized s' _ _ has ∙ below _ small;
          },
          record {
            dropped = [];
            shows =
                ap₂ (λ (xs : List ℕ) (o : Option (List ℕ)). xs ++ bytes_of o)
                  (older-others fs conf use_ conf.max_file_num s s' same) has
                ∙ sym (append-nil _);
            bound =
                early 0 use_.some_files (λ i pos le. absurd (omega (arith, pos, le)))
                  (λ i pos le. rw (unmoved i) (ap bytes_of (same i)))
                  (ap (older fs conf s) (whole conf.max_file_num));
          },
        )
    where
      unmoved : (i : ℕ) → i + 0 ≡ i
      unmoved i = omega arith

      whole : (n : ℕ) → n - 0 ≡ n
      whole n = omega arith

      below : (n : ℕ) → n < 2 ^ 64 → n ≡ n % 2 ^ 64
      below n h = omega arith
