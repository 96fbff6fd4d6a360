-- ===== src/Tests/Path.antt =====
-- include/xfutil/path.h at concrete inputs.
use xfutil.Base.{ℕ, ◌≡◌, refl, List, [], ◌∷◌}
use xfutil.Path.{behind_last, get_file_name}

-- "/a" and "bc"
abbrev dir : List ℕ
dir = b'/' ∷ b'a' ∷ []

abbrev name : List ℕ
name = b'b' ∷ b'c' ∷ []

-- A path that ends in a slash has an empty name.
no_name : get_file_name (b'a' ∷ b'/' ∷ []) ≡ []
unfolding get_file_name behind_last
no_name = refl
