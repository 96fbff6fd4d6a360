-- ===== src/Tests/Logger.antt =====
-- src/logger_impl.cpp on a file system that is a function from names to bytes.
use xfutil.Base.{
  ℕ, ◌*◌, ◌≤◌, ◌<◌, ◌≡◌, ◌≢◌, ◌⊎◌, refl, ap, sym, ◌∙◌, arith, Bool-cases, inl, inr, true,
  if◌then◌else◌, List, [], ◌∷◌, ◌++◌, length, map, Option, none, some,
}
use mathlib.Core.Option.{some-injective}
use xfutil.Ini.{same}
use xfutil.Ini.Dict.{same_refl, same→≡}
use xfutil.Logger.{LogData, FileSystem, LogConfig, Logger, rename_files, write, log_thread}
use xfutil.Logger.Rotation.{IsFileSystem, bytes_of, Rotated, rename_files-Rotated}
use xfutil.Logger
use xfutil.Queue.{push, pop, Queue}
use xfutil.Queue.Calls.{now, pushed, popped}
use xfutil.Queue.Runs.{Run, start, then_}
use xfutil.Logger.Close.{Run-history}
use xfutil.Logger.History.{older, history, Extends, IsUsable, write-Extends}
use xfutil.Logger.Run.{buffers, texts, log_thread-history}

abbrev Files : Type 0
Files = List ℕ → Option (List ℕ)

abbrev put : Files → List ℕ → Option (List ℕ) → Files
put s p v q = if same q p then v else s q

put_self : (s : Files) (p : List ℕ) (v : Option (List ℕ)) → put s p v p ≡ v
put_self s p v = rw (same_refl p) refl

put_other : (s : Files) (p q : List ℕ) (v : Option (List ℕ)) → q ≢ p → put s p v q ≡ s q
put_other s p q v ne = elim (Bool-cases (same q p)) [
  | inl is ↦ absurd (ne (same→≡ q p is))
  | inr not_is ↦ rw not_is refl
]

abbrev renamed : Files → List ℕ → List ℕ → Option (List ℕ) → Files
renamed s p q none = s
renamed s p q (some bytes) = put (put s p none) q (some bytes)

abbrev files : FileSystem
files = record {
  State = Files;
  lookup = λ s p. s p;
  unlink = λ s p. put s p none;
  rename = λ s p q. renamed s p q (s p);
  open_ = λ s p. some (put s p (some (bytes_of (s p))));
  append = λ s p data_. put s p (some (bytes_of (s p) ++ data_));
  size = λ s p. length (bytes_of (s p));
}

renamed_self :
    (s : Files) (p q : List ℕ) (o : Option (List ℕ)) → s p ≡ o → p ≢ q → renamed s p q o p ≡ none
renamed_self s p q none at ne = at
renamed_self s p q (some bytes) at ne =
    put_other (put s p none) q p (some bytes) ne ∙ put_self s p none

renamed_others :
    (s : Files) (p q r : List ℕ) (o : Option (List ℕ)) → r ≢ p → r ≢ q → renamed s p q o r ≡ s r
renamed_others s p q r none ne ne' = refl
renamed_others s p q r (some bytes) ne ne' =
    put_other (put s p none) q r (some bytes) ne' ∙ put_other s p r none ne

files-IsFileSystem : IsFileSystem files
files-IsFileSystem = record {
  unlinked = λ s p. put_self s p none;
  unlinked_other = λ s p q ne. put_other s p q none ne;
  renamed_none = λ s p q r at. rw at refl;
  renamed_to = λ s p q bytes at. rw at (put_self (put s p none) q (some bytes));
  renamed_from = λ s p q ne. renamed_self s p q (s p) refl ne;
  renamed_other = λ s p q r ne ne'. renamed_others s p q r (s p) ne ne';
  opened = λ s s' p e. shown s p (some-injective _ _ e);
  opened_other = λ s s' p q e ne. others s p q ne (some-injective _ _ e);
  appended = λ s p bytes data_ at.
      put_self s p (some (bytes_of (s p) ++ data_)) ∙ ap (λ o. some (bytes_of o ++ data_)) at;
  appended_other = λ s p data_ q ne. put_other s p q (some (bytes_of (s p) ++ data_)) ne;
  sized = λ s p bytes at. rw at refl;
}
  where
    shown :
        {s' : Files} (s : Files) (p : List ℕ)
        → put s p (some (bytes_of (s p))) ≡ s'
        → s' p ≡ some (bytes_of (s p))
    shown s p is = ap (λ (f : Files). f p) (sym is) ∙ put_self s p (some (bytes_of (s p)))

    others :
        {s' : Files} (s : Files) (p q : List ℕ)
        → q ≢ p
        → put s p (some (bytes_of (s p))) ≡ s'
        → s' q ≡ s q
    others s p q ne is =
        ap (λ (f : Files). f q) (sym is) ∙ put_other s p q (some (bytes_of (s p))) ne

-- The log is the file "a"; three files of 4 bytes and more.
abbrev conf : LogConfig
conf = record { file_path = b'a' ∷ []; max_file_size = 4; max_file_num = 2 }

conf-IsUsable : IsUsable files conf
conf-IsUsable = record {
  laws = files-IsFileSystem;
  opens = λ s. (put s (b'a' ∷ []) (some (bytes_of (s (b'a' ∷ [])))), refl);
  short = omega arith;
  some_files = omega arith;
  few = omega arith;
}

abbrev no_files : Files
no_files p = none

abbrev data_at : ℕ → List ℕ → LogData
data_at buf bytes = record { buf = buf; bytes = bytes }

abbrev lines : List LogData
lines = data_at 8192 (1 ∷ 2 ∷ []) ∷ data_at 16384 (3 ∷ 4 ∷ []) ∷ data_at 8192 (5 ∷ []) ∷ []

-- One text in the buffer at 8192.
abbrev one_text : LogData
one_text = data_at 8192 (1 ∷ 2 ∷ [])

abbrev next_text : LogData
next_text = data_at 8192 (3 ∷ 4 ∷ [])

rename_files-Rotated_example :
    Rotated files files-IsFileSystem conf (omega arith) no_files (rename_files files conf no_files)
rename_files-Rotated_example =
    rename_files-Rotated files files-IsFileSystem conf (omega arith) no_files (omega arith)
      (omega arith)

abbrev current : Logger files
current = record {
  is_open = true;
  filesize = 2;
  files = put no_files (b'a' ∷ []) (some (1 ∷ 2 ∷ []));
  freed = [];
}

write-Extends_example :
    Extends files conf current.files (3 ∷ 4 ∷ []) (write files conf current next_text)
    × ((conf.max_file_size ≡ 0)
        ⊎ ((write files conf current next_text).filesize < conf.max_file_size))
write-Extends_example =
    write-Extends files conf conf-IsUsable current next_text
      (record { is_open = refl; bytes = 1 ∷ 2 ∷ []; has = refl; filesize = refl })

log_thread-history_example :
    (l l' : Logger files) × (Logger.start files conf no_files ≡ some l)
    × (log_thread files conf l (map some lines ++ none ∷ []) ≡ some l')
    × (l'.freed ≡ buffers lines)
    × (dropped : List ℕ) × (dropped ++ history files conf l'.files
        ≡ history files conf no_files ++ texts lines)
log_thread-history_example =
    log_thread-history files conf conf-IsUsable no_files lines [] (omega arith)

-- A queue with room for two, to which one text and the mark are pushed, and which the thread empties.
abbrev queue : List (Option LogData) → Queue (Option LogData)
queue items = record { capacity = 2; items = items }

one_line-Run :
    Run (queue []) (queue []) (map some (one_text ∷ []) ++ none ∷ []) (some one_text ∷ none ∷ [])
unfolding push pop
one_line-Run =
    then_ {q' = queue (none ∷ [])}
      (then_ {q' = queue (some one_text ∷ none ∷ [])}
        (then_ {q' = queue (some one_text ∷ [])}
          (then_ start (pushed {first = queue []} {later = []} (now refl) refl))
          (pushed {later = []} (now refl) refl))
        (popped {later = []} (now refl) refl))
      (popped {later = []} (now refl) refl)

abbrev begun : Logger files
begun = record {
  is_open = true;
  filesize = 0;
  files = put no_files (b'a' ∷ []) (some []);
  freed = [];
}

begun-start : Logger.start files conf no_files ≡ some begun
unfolding Logger.start
begun-start = refl

ended :
    log_thread files conf begun (some one_text ∷ none ∷ []) ≡ some (write files conf begun one_text)
unfolding log_thread
ended = refl

Run-history_example :
    (dropped : List ℕ) × (dropped ++ history files conf (write files conf begun one_text).files
      ≡ history files conf no_files ++ texts (one_text ∷ []))
    × (((kept : List ℕ) × (dropped ++ kept ≡ older files conf no_files 2))
        ⊎ (2 * 4 ≤ length (older files conf (write files conf begun one_text).files 2)))
Run-history_example =
    Run-history files conf conf-IsUsable no_files (one_text ∷ []) [] (some one_text ∷ none ∷ [])
      (queue []) (queue []) begun (write files conf begun one_text) (omega arith) refl one_line-Run
      begun-start ended
