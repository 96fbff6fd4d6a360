-- ===== src/Ini.antt =====
-- include/xfutil/ini_file.h, src/ini_file.cpp: `IniSection` and `IniFileReader`; src/strutil.cpp: the
-- functions `TrimLeft` and `TrimRight` on `std::string`. A string is a list of bytes; a `std::map` is a
-- list of keys with values, of which only the lookups matter.
pub mod Dict
pub mod Line
pub mod File
use xfutil.Base.{
  ℕ, zero, suc, ◌+◌, ◌-◌, Bool, true, false, not, ◌&&◌, ◌||◌, ltb, leb, ◌==◌, if◌then◌else◌, List,
  [], ◌∷◌, ◌++◌, Option, none, some, length, take, drop, get_or,
}
use xfutil.Str.{is_blank}

abbrev pub Bytes : Type 0
Bytes = List ℕ

-- The `==` of strings.
abbrev pub same : Bytes → Bytes → Bool
same [] [] = true
same [] (d ∷ ds) = false
same (c ∷ cs) [] = false
same (c ∷ cs) (d ∷ ds) = c == d && same cs ds

-- `empty()`
abbrev pub is_empty : Bytes → Bool
is_empty [] = true
is_empty (c ∷ cs) = false

abbrev pub next : Option ℕ → Option ℕ
next none = none
next (some i) = some (suc i)

-- `find(c)`
unfoldable pub find : ℕ → Bytes → Option ℕ
find c [] = none
find c (d ∷ ds) = let later = next (find c ds) in if c == d then some 0 else later

-- `find(c, 1)` of a string with a first byte.
unfoldable pub find_from_1 : ℕ → Bytes → Option ℕ
unfolding find
find_from_1 c text = next (find c (drop 1 text))

-- `find_first_of(";#")`
unfoldable pub find_comment : Bytes → Option ℕ
find_comment [] = none
find_comment (d ∷ ds) =
    let later = next (find_comment ds) in if d == b';' || d == b'#' then some 0 else later

-- `substr(pos, len)`
abbrev pub substr : ℕ → ℕ → Bytes → Bytes
substr pos len text = take len (drop pos text)

-- The loops of `TrimLeft` and `TrimRight` of a `std::string`: how many bytes to skip at the front, and
-- at the back.
unfoldable pub leading : Bytes → ℕ
leading [] = 0
leading (c ∷ cs) = let rest = leading cs in if is_blank c then suc rest else 0

unfoldable pub trailing : Bytes → ℕ
trailing [] = 0
trailing (c ∷ cs) =
    let rest = trailing cs in if rest == length cs && is_blank c then suc rest else rest

unfoldable pub trim_left : Bytes → Bytes
unfolding leading
trim_left value = drop (leading value) value

unfoldable pub trim_right : Bytes → Bytes
unfolding trailing
trim_right value = take (length value - trailing value) value

-- The cases of `TrimValue` after the `TrimLeft`, by what was found.
abbrev pub up_to_quote : Bytes → Option ℕ → Bytes
up_to_quote text none = trim_right text
up_to_quote text (some pos) = substr 1 (pos - 1) text

unfoldable pub unquote : ℕ → Bytes → Bytes
unfolding find_from_1
unquote quote text = up_to_quote text (find_from_1 quote text)

abbrev pub up_to_comment : Bytes → Option ℕ → Bytes
up_to_comment text none = trim_right text
up_to_comment text (some pos) = trim_right (substr 0 pos text)

unfoldable pub uncomment : Bytes → Bytes
unfolding find_comment
uncomment text = up_to_comment text (find_comment text)

-- `TrimValue(value)`
unfoldable pub trim_value : Bytes → Bytes
unfolding trim_left unquote uncomment
trim_value value =
    let text = trim_left value in
    let first = get_or text 0 0 in
    if is_empty text
    then []
    else if first == b'"'
    then unquote b'"' text
    else if first == b'\''
    then unquote b'\'' text
    else uncomment text

module _ {ℓ} {V : Type ℓ} where
  -- `find` in a map, and `map[key] = value`.
  abbrev pub lookup : Bytes → List (Bytes × V) → Option V
  lookup key [] = none
  lookup key ((k, v) ∷ rest) = if same k key then some v else lookup key rest

  unfoldable pub insert : Bytes → V → List (Bytes × V) → List (Bytes × V)
  insert key value [] = (key, value) ∷ []
  insert key value ((k, v) ∷ rest) =
      let later = insert key value rest in if same k key then (k, value) ∷ rest else (k, v) ∷ later

-- `IniSection`
abbrev pub Section : Type 0
Section = List (Bytes × Bytes)

-- `m_curr_section` points into the map: it is the name of the section, or none for null.
pub record IniFileReader : Type 0 where
  pub sections : List (Bytes × Section)
  pub curr_section : Option Bytes

unfoldable pub new : IniFileReader
new = record { sections = []; curr_section = none }

-- What `m_sections[name]` finds: an empty section where there is none.
abbrev pub section_or_empty : Option Section → Section
section_or_empty none = []
section_or_empty (some s) = s

-- `GetSection(section)` and `Get(key)`
unfoldable pub get_section : IniFileReader → Bytes → Option Section
get_section r name = lookup name r.sections

unfoldable pub get : Section → Bytes → Option Bytes
get s key = lookup key s

-- `m_curr_section = &m_sections[name]`
unfoldable pub enter : IniFileReader → Bytes → IniFileReader
unfolding insert
enter r name = record {
  sections = insert name (section_or_empty (lookup name r.sections)) r.sections;
  curr_section = some name;
}

-- `m_curr_section->Set(key, value)`, for the section of that name.
unfoldable pub set_in : IniFileReader → Bytes → Bytes → Bytes → IniFileReader
unfolding insert
set_in r name key value = record r {
  sections = insert name (insert key value (section_or_empty (lookup name r.sections))) r.sections;
}

-- The end of `ParseLine`: without a section, that with the empty name is entered.
abbrev pub set_current : IniFileReader → Option Bytes → Bytes → Bytes → IniFileReader
set_current r none key value = set_in (enter r []) [] key value
set_current r (some name) key value = set_in r name key value

unfoldable pub set : IniFileReader → Bytes → Bytes → IniFileReader
unfolding set_in enter
set r key value = set_current r r.curr_section key value

-- The section line of `ParseLine`, by where the bracket was found.
abbrev pub section_at : IniFileReader → Bytes → Option ℕ → IniFileReader
section_at r text none = r
section_at r text (some pos) = enter r (substr 1 (pos - 1) text)

unfoldable pub parse_section : IniFileReader → Bytes → IniFileReader
unfolding find
parse_section r text = section_at r text (find b']' text)

-- The key and value line, by where the `=` was found.
abbrev pub value_at : IniFileReader → Bytes → Option ℕ → IniFileReader
value_at r text none = r
value_at r text (some pos) =
    let value = drop (suc pos) text in
    set r (trim_right (take pos text)) (if is_empty value then value else trim_value value)

unfoldable pub parse_value : IniFileReader → Bytes → IniFileReader
unfolding find
parse_value r text = value_at r text (find b'=' text)

-- `ParseLine(line)`
unfoldable pub parse_line : IniFileReader → Bytes → IniFileReader
unfolding parse_section parse_value trim_left
parse_line r line =
    let text = trim_left line in
    let first = get_or text 0 0 in
    if is_empty text
    then r
    else if first == b'#' || first == b';'
    then r
    else if first == b'['
    then parse_section r text
    else parse_value r text

-- A byte in front of the first line.
abbrev pub cons_line : ℕ → List Bytes → List Bytes
cons_line c [] = (c ∷ []) ∷ []
cons_line c (l ∷ ls) = (c ∷ l) ∷ ls

-- The lines that `getline` gives until the end of the file: those between the newlines.
unfoldable pub lines : Bytes → List Bytes
lines [] = [] ∷ []
lines (c ∷ cs) = let rest = lines cs in if c == b'\n' then [] ∷ rest else cons_line c rest

abbrev pub parse_lines : IniFileReader → List Bytes → IniFileReader
parse_lines r [] = r
parse_lines r (l ∷ ls) = parse_lines (parse_line r l) ls

-- `Parse(file_path)`: the result, and the reader. The file's bytes are an argument, `none` if it
-- cannot be opened.
unfoldable pub parse : IniFileReader → Option Bytes → ℕ × IniFileReader
unfolding lines parse_line
parse r none = (1, r)
parse r (some text) = (0, parse_lines r (lines text))
