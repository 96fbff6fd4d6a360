-- ===== src/Path.antt =====
-- include/xfutil/path.h: the functions of `Path` on the text of paths. A C string is the list of its bytes
-- without the zero; `snprintf` into a buffer of `path_size` bytes keeps at most `path_size` - 1 of them.
pub mod Parts
use xfutil.Base.{
  ℕ, zero, suc, ◌+◌, ◌-◌, Bool, true, false, ◌==◌, if◌then◌else◌, List, [], ◌∷◌, ◌++◌, take, Option,
  none, some,
}

abbrev pub slash : ℕ
slash = b'/'

-- `strrchr(path, '/')`: what stands behind the last slash.
abbrev pub or_here : Option (List ℕ) → ℕ → List ℕ → Option (List ℕ)
or_here (some name) c cs = some name
or_here none c cs = if c == slash then some cs else none

unfoldable pub behind_last : List ℕ → Option (List ℕ)
behind_last [] = none
behind_last (c ∷ cs) = or_here (behind_last cs) c cs

abbrev pub or_whole : List ℕ → Option (List ℕ) → List ℕ
or_whole path none = path
or_whole path (some name) = name

-- `GetFileName(path)`
unfoldable pub get_file_name : List ℕ → List ℕ
unfolding behind_last
get_file_name path = or_whole path (behind_last path)

-- `path1[strlen(path1) - 1] == '/'`
abbrev pub last_is_slash : List ℕ → Bool
last_is_slash [] = false
last_is_slash (c ∷ []) = c == slash
last_is_slash (c ∷ d ∷ cs) = last_is_slash (d ∷ cs)

-- `Combine(path, path_size, path1, path2)`
unfoldable pub combine : ℕ → List ℕ → List ℕ → List ℕ
combine path_size path1 path2 = take (path_size - 1) (path1 ++ slash ∷ path2)

-- `CombineEx(path, path_size, path1, path2)`
unfoldable pub combine_ex : ℕ → List ℕ → List ℕ → List ℕ
combine_ex path_size path1 path2 =
    if last_is_slash path1
    then take (path_size - 1) (path1 ++ path2)
    else take (path_size - 1) (path1 ++ slash ∷ path2)
