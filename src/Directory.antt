-- ===== src/Directory.antt =====
-- include/xfutil/directory.h, src/directory.cpp: `Directory::Create` and `Directory::Create_r`. The directories
-- are a parameter. A path is the list of its bytes; the mask that both methods clear and set back is
-- not looked at.
pub mod Prefixes
use xfutil.Base.{ℕ, ◌==◌, Bool, true, false, if◌then◌else◌, List, [], ◌∷◌, ◌++◌, Option, none, some}
use xfutil.Path.{slash}

-- `stat` with `S_ISDIR`, and `mkdir`, `none` where it fails.
pub record Directories : Type 1 where
  pub State : Type 0
  pub exist : State → List ℕ → Bool
  pub mkdir : State → List ℕ → Option State

module _ (dirs : Directories) where
  abbrev pub made : dirs.State → Option dirs.State → dirs.State × Bool
  made s none = (s, false)
  made s (some after) = (after, true)

  -- `Create(path)`
  unfoldable pub create : dirs.State → List ℕ → dirs.State × Bool
  create s path = if dirs.exist s path then (s, true) else made s (dirs.mkdir s path)

  -- The loop of `Create_r` over the slashes of the path, from the bytes behind `front` on, and the path
  -- itself at the end.
  unfoldable pub create_from : dirs.State → List ℕ → List ℕ → dirs.State × Bool
  unfolding create
  create_from s front [] = create s front
  create_from s front (c ∷ rest) =
      let r = create s front in
      let next = create_from r.0 (front ++ c ∷ []) rest in
      let later = create_from s (front ++ c ∷ []) rest in
      if c == slash then (if r.1 then next else r) else later

  -- `Create_r(path)`, of a path that is not empty: its first byte is not looked at.
  unfoldable pub create_r : dirs.State → ℕ → List ℕ → dirs.State × Bool
  unfolding create_from
  create_r s first rest = create_from s (first ∷ []) rest
