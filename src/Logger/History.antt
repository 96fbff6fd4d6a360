-- ===== src/Logger/History.antt =====
-- src/logger_impl.cpp: the text of all log files, and what a `Write` does to it.
use xfutil.Base.{
  ◌∷◌, ℕ, zero, suc, ◌+◌, ◌-◌, ◌%◌, ◌^◌, ◌≤◌, ◌<◌, ◌≡◌, refl, ap, ap₂, sym, ◌∙◌, subst, arith,
  Bool-cases, ◌⊎◌, inl, inr, leb, true, List, [], ◌++◌, append-nil, append_assoc, length,
  length-append, Option, some,
}
use xfutil.Logger.{FileSystem, LogConfig, LogData, Logger, numbered, rename_files, reopen, write}
use xfutil.Logger.Names.{numbered_ne}
use xfutil.Logger.Rotation.{IsFileSystem, bytes_of, Rotated, rename_files-Rotated}

module _ (fs : FileSystem) (conf : LogConfig) where
  abbrev pub text : fs.State → List ℕ → List ℕ
  text s p = bytes_of (fs.lookup s p)

  -- The text of the files with the numbers from `k` down to 1, the oldest first.
  abbrev pub older : fs.State → ℕ → List ℕ
  older s zero = []
  older s (suc k) = text s (numbered fs conf (suc k)) ++ older s k

  -- The text of all files, the log itself last.
  abbrev pub history : fs.State → List ℕ
  history s = older s conf.max_file_num ++ text s conf.file_path

-- The thread has the log open, and counts its bytes.
pub record IsOpen (fs : FileSystem) (conf : LogConfig) (l : Logger fs) : Type 0 where
  pub is_open : l.is_open ≡ true
  pub bytes : List ℕ
  pub has : fs.lookup l.files conf.file_path ≡ some bytes
  pub filesize : l.filesize ≡ length bytes % 2 ^ 64

-- The text of the files is what it was, but for some of the oldest, and then the new text.
pub record Extends (fs : FileSystem) (conf : LogConfig) (before : fs.State) (new : List ℕ)
    (l : Logger fs) : Type 0 where
  pub open_log : IsOpen fs conf l
  pub dropped : List ℕ
  pub shows : dropped ++ history fs conf l.files ≡ history fs conf before ++ new

-- What the theorems suppose: the file system, that the log can be opened, a path that is not too long
-- for its buffer, and a number of files from 1 on.
pub record IsUsable (fs : FileSystem) (conf : LogConfig) : Type 0 where
  pub laws : IsFileSystem fs
  pub opens : (s : fs.State) → (s' : fs.State) × (fs.open_ s conf.file_path ≡ some s')
  pub short : length conf.file_path ≤ 244
  pub some_files : 0 < conf.max_file_num
  pub few : conf.max_file_num < 2 ^ 16

module _ (fs : FileSystem) (conf : LogConfig) (use_ : IsUsable fs conf) where
  pub older-others :
      (k : ℕ) (s s' : fs.State)
      → ((i : ℕ) → fs.lookup s' (numbered fs conf i) ≡ fs.lookup s (numbered fs conf i))
      → older fs conf s' k ≡ older fs conf s k
  older-others zero s s' same = refl
  older-others (suc k) s s' same =
      ap₂ (λ (o : Option (List ℕ)) (ys : List ℕ). bytes_of o ++ ys) (same (suc k))
        (older-others k s s' same)

  older-Rotated :
      (k : ℕ) (s s' : fs.State)
      → Rotated fs use_.laws conf use_.short s s'
      → suc k ≤ conf.max_file_num
      → older fs conf s' (suc k) ≡ older fs conf s k ++ text fs conf s conf.file_path
  older-Rotated zero s s' r le = append-nil _ ∙ ap bytes_of r.first
  older-Rotated (suc k) s s' r le =
      ap₂ (λ (o : Option (List ℕ)) (ys : List ℕ). bytes_of o ++ ys)
        (r.up (suc k) (omega arith) (omega (arith, le)))
        (older-Rotated k s s' r (omega (arith, le)))
      ∙ sym (
          append_assoc (text fs conf s (numbered fs conf (suc k))) (older fs conf s k)
            (text fs conf s conf.file_path))

  -- `Rename` drops the oldest file and keeps the rest of the text.
  pub history-Rotated :
      (s s' : fs.State)
      → Rotated fs use_.laws conf use_.short s s'
      → text fs conf s (numbered fs conf conf.max_file_num) ++ older fs conf s' conf.max_file_num
        ≡ history fs conf s
  history-Rotated s s' r =
      let last : suc (conf.max_file_num - 1) ≡ conf.max_file_num = omega (arith, use_.some_files) in
      subst
        (λ n.
          text fs conf s (numbered fs conf n) ++ older fs conf s' n
          ≡ older fs conf s n ++ text fs conf s conf.file_path)
        last
        (ap (◌++◌ (text fs conf s (numbered fs conf (suc (conf.max_file_num - 1)))))
            (older-Rotated (conf.max_file_num - 1) s s' r (omega (arith, last)))
          ∙ sym (
              append_assoc (text fs conf s (numbered fs conf (suc (conf.max_file_num - 1))))
                (older fs conf s (conf.max_file_num - 1)) (text fs conf s conf.file_path)))

  -- After `Reopen` the log is open and empty, and only the oldest file is gone.
  reopen-Extends :
      (l : Logger fs)
      → Extends fs conf l.files [] (reopen fs conf l).0 × ((reopen fs conf l).0.filesize ≡ 0)
  unfolding reopen
  reopen-Extends l =
      let s' = rename_files fs conf l.files in
      let r = rename_files-Rotated fs use_.laws conf use_.short l.files use_.some_files use_.few in
      let (s'', opens) = use_.opens s' in
      let empty : fs.lookup s'' conf.file_path ≡ some [] =
        use_.laws.opened s' s'' conf.file_path opens ∙ ap (λ o. some (bytes_of o)) r.current in
      let same = older-others conf.max_file_num s' s'' (λ i.
        use_.laws.opened_other s' s'' conf.file_path _ opens (numbered_ne fs conf use_.short i)) in
      rw opens (
        record {
          open_log = record { is_open = refl; bytes = []; has = empty; filesize = refl };
          dropped = text fs conf l.files (numbered fs conf conf.max_file_num);
          shows =
              ap (◌++◌ (text fs conf l.files (numbered fs conf conf.max_file_num))) (
                ap₂ (λ (xs : List ℕ) (o : Option (List ℕ)). xs ++ bytes_of o) same empty
                ∙ append-nil _)
              ∙ history-Rotated l.files s' r
              ∙ sym (append-nil _);
        },
        refl,
      )

  -- `Write` before it looks at the size.
  abbrev pub written : Logger fs → LogData → Logger fs
  written l data_ = record {
    is_open = true;
    filesize = (l.filesize + length data_.bytes) % 2 ^ 64;
    files = fs.append l.files conf.file_path data_.bytes;
    freed = l.freed ++ data_.buf ∷ [];
  }

  pub written-history :
      (l : Logger fs) (data_ : LogData)
      → IsOpen fs conf l
      → history fs conf (written l data_).files ≡ history fs conf l.files ++ data_.bytes
  written-history l data_ o =
      ap₂ (λ (xs : List ℕ) (t : Option (List ℕ)). xs ++ bytes_of t)
        (older-others conf.max_file_num l.files (fs.append l.files conf.file_path data_.bytes) (λ i.
          use_.laws.appended_other l.files conf.file_path data_.bytes _
            (numbered_ne fs conf use_.short i)))
        (use_.laws.appended l.files conf.file_path o.bytes data_.bytes o.has)
      ∙ sym (append_assoc (older fs conf l.files conf.max_file_num) o.bytes data_.bytes)
      ∙ ap
          (λ (t : Option (List ℕ)).
            (older fs conf l.files conf.max_file_num ++ bytes_of t) ++ data_.bytes)
          (sym o.has)

  pub written-Extends :
      (l : Logger fs) (data_ : LogData)
      → IsOpen fs conf l
      → Extends fs conf l.files data_.bytes (written l data_)
  written-Extends l data_ o =
      let has = use_.laws.appended l.files conf.file_path o.bytes data_.bytes o.has in
      record {
        open_log = record {
          is_open = refl;
          bytes = o.bytes ++ data_.bytes;
          has = has;
          filesize = omega (arith, o.filesize, length-append o.bytes data_.bytes);
        };
        dropped = [];
        shows = written-history l data_ o;
      }

  pub Extends-trans :
      (s : fs.State) (xs ys : List ℕ) (l l' : Logger fs)
      → Extends fs conf s xs l
      → Extends fs conf l.files ys l'
      → Extends fs conf s (xs ++ ys) l'
  Extends-trans s xs ys l l' e e' = record {
    open_log = e'.open_log;
    dropped = e.dropped ++ e'.dropped;
    shows =
        append_assoc e.dropped e'.dropped (history fs conf l'.files)
        ∙ ap (◌++◌ e.dropped) e'.shows
        ∙ sym (append_assoc e.dropped (history fs conf l.files) ys)
        ∙ ap (λ (t : List ℕ). t ++ ys) e.shows
        ∙ append_assoc (history fs conf s) xs ys;
  }

  -- After a `Write` to the open log, the log is open, `m_filesize` is its size modulo 2^64, the text of
  -- the files is the old text and the new bytes, but for some of the oldest bytes, and `m_filesize` is
  -- below `max_file_size`, unless that is 0; under the same conditions on the files as in `IsUsable`.
  pub write-Extends :
      (l : Logger fs) (data_ : LogData)
      → IsOpen fs conf l
      → Extends fs conf l.files data_.bytes (write fs conf l data_)
        × ((conf.max_file_size ≡ 0) ⊎ ((write fs conf l data_).filesize < conf.max_file_size))
  unfolding write
  write-Extends l data_ o =
      let w = written l data_ in
      let once = written-Extends l data_ o in
      elim (Bool-cases (leb conf.max_file_size w.filesize)) [
        | inl full ↦
            let r = reopen-Extends w in
            rw (o.is_open, full)
              (
                subst (λ xs. Extends fs conf l.files xs (reopen fs conf w).0)
                    (append-nil data_.bytes)
                    (Extends-trans l.files data_.bytes [] w (reopen fs conf w).0 once r.0),
                reset _ r.1,
              )
        | inr room ↦ rw (o.is_open, room) (once, inr (ground arith))
      ]
    where
      reset : (n : ℕ) → n ≡ 0 → (conf.max_file_size ≡ 0) ⊎ (n < conf.max_file_size)
      reset n empty = ground arith
