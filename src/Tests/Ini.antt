-- ===== src/Tests/Ini.antt =====
-- src/ini_file.cpp at concrete inputs.
use xfutil.Base.{◌≡◌, refl, arith, List, [], ◌∷◌, some, All}
use xfutil.Ini.{new, parse}
use xfutil.Ini.File.{
  Item, section, setting, comment, IsPrintable, named, keyed, noted, print, apply, parse-print,
}

-- "#x", "[net]", "port=\"80 ;\""
abbrev items : List Item
items =
    comment (b'x' ∷ [])
    ∷ section (b'n' ∷ b'e' ∷ b't' ∷ [])
    ∷ setting (b'p' ∷ b'o' ∷ b'r' ∷ b't' ∷ []) (b'8' ∷ b'0' ∷ b' ' ∷ b';' ∷ [])
    ∷ []

items-IsPrintable : All IsPrintable items
items-IsPrintable = (
  noted (omega arith),
  (
    named (omega arith) (omega arith),
    (
      keyed (omega arith)
          (
            (refl, omega arith),
            ((refl, omega arith), ((refl, omega arith), ((refl, omega arith), tt))),
          )
          (omega arith) (omega arith),
      tt,
    ),
  ),
)

parse-print_example : parse new (some (print items)) ≡ (0, apply new items)
parse-print_example = parse-print new items items-IsPrintable
