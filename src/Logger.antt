-- ===== src/Logger.antt =====
-- src/logger_impl.h, src/logger_impl.cpp: the writing side of the class `LoggerImpl`, which is its
-- thread's, and the struct `LogConfig` of include/xfutil/logger.h. The file system is a parameter. A
-- `LogData` has the `len` bytes of its buffer, and `none` is the mark that ends the thread.
pub mod Names
pub mod Rotation
pub mod History
pub mod Run
pub mod Bound
pub mod Kept
pub mod Close
use xfutil.Base.{
  ℕ, zero, suc, ◌+◌, ◌-◌, ◌%◌, ◌^◌, Bool, true, false, leb, if◌then◌else◌, List, [], ◌∷◌, ◌++◌,
  length, take, Option, none, some,
}
use xfutil.Time.{decimal}

-- What the logger uses of the file system: the bytes of the file of a name, `none` where there is no
-- such file; `unlink`, `rename`; `open` with `O_CREAT`, `none` where it fails; `write` to a file that
-- was opened with `O_APPEND`, and the size by `fstat`.
pub record FileSystem : Type 1 where
  pub State : Type 0
  pub lookup : State → List ℕ → Option (List ℕ)
  pub unlink : State → List ℕ → State
  pub rename : State → List ℕ → List ℕ → State
  pub open_ : State → List ℕ → Option State
  pub append : State → List ℕ → List ℕ → State
  pub size : State → List ℕ → ℕ

pub record LogData : Type 0 where
  pub buf : ℕ
  pub bytes : List ℕ

-- The fields that the thread reads.
pub record LogConfig : Type 0 where
  pub file_path : List ℕ
  pub max_file_size : ℕ
  pub max_file_num : ℕ

module _ (fs : FileSystem) where
  -- The open state of `m_logfile`, `m_filesize`, the files, and the buffers that `m_pool.Free` was called
  -- for so far.
  pub record Logger : Type 0 where
    pub is_open : Bool
    pub filesize : ℕ
    pub files : fs.State
    pub freed : List ℕ

module _ (fs : FileSystem) (conf : LogConfig) where
  -- `snprintf(path, MAX_PATH_LEN, "%s.%u", m_conf.file_path.c_str(), i)`
  unfoldable pub numbered : ℕ → List ℕ
  unfolding decimal
  numbered i = take 255 (conf.file_path ++ b'.' ∷ decimal 10 i)

  -- The loop of `Rename`, from `i` down.
  unfoldable pub shift : ℕ → fs.State → fs.State
  unfolding numbered
  shift zero s = s
  shift (suc i) s = shift i (fs.rename s (numbered (suc i)) (numbered (suc (suc i))))

  -- `Rename()`
  unfoldable pub rename_files : fs.State → fs.State
  unfolding numbered shift
  rename_files s =
      let cleared = fs.unlink s (numbered conf.max_file_num) in
      let shifted = shift ((conf.max_file_num + 2 ^ 16 - 1) % 2 ^ 16) cleared in
      fs.rename shifted conf.file_path (numbered 1)

  abbrev pub opened : Logger fs → fs.State → Option fs.State → Logger fs × Bool
  opened l before none = (record l { is_open = false; filesize = 0; files = before }, false)
  opened l before (some after) = (record l { is_open = true; filesize = 0; files = after }, true)

  -- `Reopen()`
  unfoldable pub reopen : Logger fs → Logger fs × Bool
  unfolding rename_files
  reopen l =
      let renamed = rename_files l.files in opened l renamed (fs.open_ renamed conf.file_path)

  -- `Write(data)`
  unfoldable pub write : Logger fs → LogData → Logger fs
  unfolding reopen
  write l data_ =
      let written = record l {
        filesize = (l.filesize + length data_.bytes) % 2 ^ 64;
        files = if l.is_open then fs.append l.files conf.file_path data_.bytes else l.files;
        freed = l.freed ++ data_.buf ∷ [];
      } in
      if leb conf.max_file_size written.filesize then (reopen written).0 else written

  -- `LogThread` on what it pops; `none` where it waits for more.
  unfoldable pub log_thread : Logger fs → List (Option LogData) → Option (Logger fs)
  unfolding write
  log_thread l [] = none
  log_thread l (none ∷ rest) = some l
  log_thread l (some data_ ∷ rest) = log_thread (write l data_) rest

  abbrev pub started : Option fs.State → Option (Logger fs)
  started none = none
  started (some s) =
      some (record { is_open = true; filesize = fs.size s conf.file_path; files = s; freed = [] })

  -- `Start(conf)` up to the start of the thread; `none` where it fails.
  unfoldable pub start : fs.State → Option (Logger fs)
  start s = started (fs.open_ s conf.file_path)
