-- ===== src/Path/Parts.antt =====
-- include/xfutil/path.h: the parts of a path that was combined.
use xfutil.Base.{ℕ, ◌≢◌, List, All}
use xfutil.Path.{slash}

-- A name has no slash.
abbrev pub IsName : List ℕ → Type 0
IsName = All (λ c. c ≢ slash)
