-- ===== src/Logger/Run.antt =====
-- src/logger_impl.cpp: the thread over all the texts that it pops.
use xfutil.Base.{
  if◌then◌else◌, ◌+◌, Bool-cases, inl, inr, leb, append_assoc, ◌%◌, ℕ, ◌%◌, ◌^◌, ◌<◌, ◌≡◌, refl, ap,
  ap₂, sym, ◌∙◌, arith, true, List, [], ◌∷◌, ◌++◌, append-nil, length, map, Option, none, some,
}
use xfutil.Logger.{
  LogData, reopen, opened, rename_files, FileSystem, LogConfig, Logger, write, log_thread, started,
  start,
}
use xfutil.Logger.Names.{numbered_ne}
use xfutil.Logger.Rotation.{bytes_of}
use xfutil.Logger.History.{
  text, history, older-others, IsOpen, Extends, IsUsable, write-Extends, Extends-trans,
}

abbrev pub texts : List LogData → List ℕ
texts [] = []
texts (d ∷ rest) = d.bytes ++ texts rest

abbrev pub buffers : List LogData → List ℕ
buffers [] = []
buffers (d ∷ rest) = d.buf ∷ buffers rest

module _ (fs : FileSystem) (conf : LogConfig) (use_ : IsUsable fs conf) where
  reopen-freed : (l : Logger fs) → (reopen fs conf l).0.freed ≡ l.freed
  unfolding reopen
  reopen-freed l =
      let (s', opens) = use_.opens (rename_files fs conf l.files) in
      ap (λ o. (opened fs conf l (rename_files fs conf l.files) o).0.freed) opens

  write-freed : (l : Logger fs) (d : LogData) → (write fs conf l d).freed ≡ l.freed ++ d.buf ∷ []
  unfolding write
  write-freed l d =
      elim (Bool-cases (leb conf.max_file_size ((l.filesize + length d.bytes) % 2 ^ 64))) [
        | inl full ↦ rw full (
            reopen-freed (record l {
              filesize = (l.filesize + length d.bytes) % 2 ^ 64;
              files = if l.is_open then fs.append l.files conf.file_path d.bytes else l.files;
              freed = l.freed ++ d.buf ∷ [];
            }))
        | inr room ↦ rw room refl
      ]

  log_thread-run :
      (l : Logger fs) (lines : List LogData) (rest : List (Option LogData))
      → IsOpen fs conf l
      → (l' : Logger fs) × (log_thread fs conf l (map some lines ++ none ∷ rest) ≡ some l')
        × Extends fs conf l.files (texts lines) l'
        × (l'.freed ≡ l.freed ++ buffers lines)
  unfolding log_thread
  log_thread-run l [] rest o = (
    l,
    refl,
    record { open_log = o; dropped = []; shows = sym (append-nil _) },
    sym (append-nil l.freed),
  )
  log_thread-run l (d ∷ lines) rest o =
      let e = (write-Extends fs conf use_ l d o).0 in
      let (l', is, e', freed) = log_thread-run (write fs conf l d) lines rest e.open_log in
      (
        l',
        is,
        Extends-trans fs conf use_ l.files d.bytes (texts lines) (write fs conf l d) l' e e',
        freed
            ∙ ap (λ (xs : List ℕ). xs ++ buffers lines) (write-freed l d)
            ∙ append_assoc l.freed (d.buf ∷ []) (buffers lines),
      )

  start-IsOpen :
      (s : fs.State)
      → (l : Logger fs) × (start fs conf s ≡ some l)
        × (history fs conf l.files ≡ history fs conf s)
        × (l.freed ≡ [])
        × (length (text fs conf s conf.file_path) < 2 ^ 64 → IsOpen fs conf l)
  unfolding start
  start-IsOpen s =
      let (s', opens) = use_.opens s in
      let has = use_.laws.opened s s' conf.file_path opens in
      let same = older-others fs conf use_ conf.max_file_num s s' (λ i.
        use_.laws.opened_other s s' conf.file_path _ opens (numbered_ne fs conf use_.short i)) in
      (
        record { is_open = true; filesize = fs.size s' conf.file_path; files = s'; freed = [] },
        ap (started fs conf) opens,
        ap₂ (λ (xs : List ℕ) (o : Option (List ℕ)). xs ++ bytes_of o) same has,
        refl,
        λ small. record {
          is_open = refl;
          bytes = text fs conf s conf.file_path;
          has = has;
          filesize = use_.laws.sized s' _ _ has ∙ below _ small;
        },
      )
    where
      below : (n : ℕ) → n < 2 ^ 64 → n ≡ n % 2 ^ 64
      below n h = omega arith

  -- From `Start`, with a log below 2^64 bytes, the thread reads the texts before the first mark, each
  -- of which it writes, gives the buffer of each back once, in order, and ends there; the log files then have the bytes that they had at `Start`
  -- and the texts in order, but for some of the oldest bytes, where the log can be opened each time,
  -- every `write` writes all, the path has at most 244 bytes and the number of files is from 1 to 65,535.
  pub log_thread-history :
      (s : fs.State) (lines : List LogData) (rest : List (Option LogData))
      → length (text fs conf s conf.file_path) < 2 ^ 64
      → (l l' : Logger fs) × (start fs conf s ≡ some l)
        × (log_thread fs conf l (map some lines ++ none ∷ rest) ≡ some l')
        × (l'.freed ≡ buffers lines)
        × (dropped : List ℕ) × (dropped ++ history fs conf l'.files
            ≡ history fs conf s ++ texts lines)
  log_thread-history s lines rest small =
      let (l, starts, same, unfreed, is_open) = start-IsOpen s in
      let (l', ends, e, freed) = log_thread-run l lines rest (is_open small) in
      (
        l,
        l',
        starts,
        ends,
        freed ∙ ap (λ (xs : List ℕ). xs ++ buffers lines) unfreed,
        e.dropped,
        e.shows ∙ ap (λ (t : List ℕ). t ++ texts lines) same,
      )
