-- ===== src/Ini/File.antt =====
-- src/ini_file.cpp: `Parse` of a printed file.
use xfutil.Base.{ℕ, ◌≡◌, refl, ap, sym, ◌∙◌, arith, ==_ne, List, [], ◌∷◌, ◌++◌, some, All, All-map}
use xfutil.Ini.{Bytes, IniFileReader, enter, set, parse_line, parse_lines, lines, parse}
use xfutil.Ini.Line.{
  Lacks, Inked, Starts, parse_line-section, parse_line-setting, parse_line-empty,
  parse_line-comment,
}

-- What a line of a file says.
pub data Item : Type 0 where
  section : Bytes → Item
  setting : (key value : Bytes) → Item
  comment : Bytes → Item

-- A section's name has no bracket and no newline. A key has no blank and no `=`, and starts with
-- neither `#` nor `;` nor `[`. A value has no double quote and no newline, a comment no newline.
pub data IsPrintable : Item → Type 0 where
  named : {name : Bytes} → Lacks b']' name → Lacks b'\n' name → IsPrintable (section name)
  keyed :
      {c : ℕ} {cs value : Bytes}
      → Starts c
      → Inked (c ∷ cs)
      → Lacks b'"' value
      → Lacks b'\n' value
      → IsPrintable (setting (c ∷ cs) value)
  noted : {text : Bytes} → Lacks b'\n' text → IsPrintable (comment text)

-- `[name]`, `key="value"` or `#text`
abbrev pub line : Item → Bytes
line (section name) = b'[' ∷ (name ++ b']' ∷ [])
line (setting key value) = key ++ b'=' ∷ b'"' ∷ (value ++ b'"' ∷ [])
line (comment text) = b'#' ∷ text

abbrev pub print : List Item → Bytes
print [] = []
print (i ∷ is) = line i ++ b'\n' ∷ print is

-- What the reader should hold after these lines.
abbrev pub apply : IniFileReader → List Item → IniFileReader
apply r [] = r
apply r (section name ∷ is) = apply (enter r name) is
apply r (setting key value ∷ is) = apply (set r key value) is
apply r (comment text ∷ is) = apply r is

lines-append : (l rest : Bytes) → Lacks b'\n' l → lines (l ++ b'\n' ∷ rest) ≡ l ∷ lines rest
unfolding lines
lines-append [] rest h = refl
lines-append (c ∷ l) rest (h, hs) = rw (==_ne c b'\n' h, lines-append l rest hs) refl

Lacks-append : (c : ℕ) (xs ys : Bytes) → Lacks c xs → Lacks c ys → Lacks c (xs ++ ys)
Lacks-append c [] ys h h' = h'
Lacks-append c (x ∷ xs) ys (h, hs) h' = (h, Lacks-append c xs ys hs h')

Inked-Lacks : (key : Bytes) → Inked key → Lacks b'\n' key
Inked-Lacks = All-map (λ c h e. ground arith)

IsPrintable-Lacks : {i : Item} → IsPrintable i → Lacks b'\n' (line i)
IsPrintable-Lacks (named {name} h h') =
    (omega arith, Lacks-append b'\n' name (b']' ∷ []) h' (omega arith, tt))
IsPrintable-Lacks (keyed {c} {cs} {value} start ink h h') =
    Lacks-append b'\n' (c ∷ cs) _ (Inked-Lacks (c ∷ cs) ink)
      (omega arith, (omega arith, Lacks-append b'\n' value (b'"' ∷ []) h' (omega arith, tt)))
IsPrintable-Lacks (noted h) = (omega arith, h)

parse_line-apply :
    {i : Item} (r : IniFileReader) → IsPrintable i → parse_line r (line i) ≡ apply r (i ∷ [])
parse_line-apply r (named {name} h h') = parse_line-section r name h
parse_line-apply r (keyed {c} {cs} {value} start ink h h') =
    parse_line-setting r c cs value start ink h
parse_line-apply r (noted {text} h) = parse_line-comment r text

apply-cons :
    (r : IniFileReader) (i : Item) (is : List Item) → apply r (i ∷ is) ≡ apply (apply r (i ∷ [])) is
apply-cons r (section name) is = refl
apply-cons r (setting key value) is = refl
apply-cons r (comment text) is = refl

parse_lines-print :
    (r : IniFileReader) (is : List Item)
    → All IsPrintable is
    → parse_lines r (lines (print is)) ≡ apply r is
parse_lines-print r [] h = unfold lines in parse_line-empty r
parse_lines-print r (i ∷ is) (h, hs) = rw (lines-append (line i) (print is) (IsPrintable-Lacks h)) (
    ap (λ (q : IniFileReader). parse_lines q (lines (print is))) (parse_line-apply r h)
    ∙ parse_lines-print (apply r (i ∷ [])) is hs
    ∙ sym (apply-cons r i is))

-- `Parse` of a printed file returns 0 and leaves the reader as if the sections had been entered and the
-- values set one after the other, whatever it held before; comments change nothing.
pub parse-print :
    (r : IniFileReader) (is : List Item)
    → All IsPrintable is
    → parse r (some (print is)) ≡ (0, apply r is)
unfolding parse
parse-print r is h = ap (λ (q : IniFileReader). (0, q)) (parse_lines-print r is h)
