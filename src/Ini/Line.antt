-- ===== src/Ini/Line.antt =====
-- src/ini_file.cpp: `ParseLine` on the lines of a printed file.
use xfutil.Base.{
  take_whole, drop-append, ℕ, suc, ◌-◌, ◌≡◌, ◌≢◌, refl, ap, sym, ◌∙◌, arith, false, ==_ne, [], ◌∷◌,
  ◌++◌, some, length, take, All, All-map,
}
use xfutil.Str.{is_blank}
use xfutil.Ini.{
  Bytes, find, find_from_1, leading, trailing, trim_left, trim_right, unquote, trim_value, substr,
  IniFileReader, enter, set, parse_section, parse_value, parse_line,
}

-- No byte of the text is `c`.
abbrev pub Lacks : ℕ → Bytes → Type 0
Lacks c = All (λ d. d ≢ c)

find_first :
    (c : ℕ) (front rest : Bytes) → Lacks c front → find c (front ++ c ∷ rest) ≡ some (length front)
unfolding find
find_first c [] rest h = ground arith
find_first c (d ∷ front) rest (h, hs) =
    rw (==_ne c d (λ e. h (sym e)), find_first c front rest hs) refl

take-append : (front rest : Bytes) → take (length front) (front ++ rest) ≡ front
take-append [] rest = refl
take-append (c ∷ front) rest = ap (◌∷◌ c) (take-append front rest)

-- What a key may be made of: no blank, and no `=`.
abbrev pub Inked : Bytes → Type 0
Inked = All (λ c. (is_blank c ≡ false) × (c ≢ b'='))

trailing-Inked : (text : Bytes) → Inked text → trailing text ≡ 0
unfolding trailing
trailing-Inked [] h = refl
trailing-Inked (c ∷ cs) ((h, _), hs) = ground (arith, trailing-Inked cs hs)

trim_right-Inked : (text : Bytes) → Inked text → trim_right text ≡ text
unfolding trim_right
trim_right-Inked text h =
    rw (trailing-Inked text h)
      (ap (λ (n : ℕ). take n text) (omega arith) ∙ take_whole (length text) text (omega arith))

leading-ink : (c : ℕ) (cs : Bytes) → is_blank c ≡ false → trim_left (c ∷ cs) ≡ c ∷ cs
unfolding trim_left leading
leading-ink c cs h = rw h refl

-- `substr(1, pos - 1)`, where the text from `pos` on is `rest`.
substr-append :
    (c : ℕ) (front rest : Bytes) → substr 1 (suc (length front) - 1) (c ∷ (front ++ rest)) ≡ front
substr-append c front rest =
    ap (λ (n : ℕ). take n (front ++ rest)) (omega arith) ∙ take-append front rest

unquote-quoted : (v : Bytes) → Lacks b'"' v → unquote b'"' (b'"' ∷ (v ++ b'"' ∷ [])) ≡ v
unfolding unquote find_from_1
unquote-quoted v h = rw (find_first b'"' v [] h) (substr-append b'"' v (b'"' ∷ []))

-- A quoted value is what stands between the quotes.
trim_value-quoted : (v : Bytes) → Lacks b'"' v → trim_value (b'"' ∷ (v ++ b'"' ∷ [])) ≡ v
unfolding trim_value
trim_value-quoted v h = rw (leading-ink b'"' (v ++ b'"' ∷ []) refl) (unquote-quoted v h)

parse_section-named :
    (r : IniFileReader) (name : Bytes)
    → Lacks b']' name
    → parse_section r (b'[' ∷ (name ++ b']' ∷ [])) ≡ enter r name
unfolding parse_section
parse_section-named r name h =
    rw (find_first b']' (b'[' ∷ name) [] (omega arith, h))
      (ap (enter r) (substr-append b'[' name (b']' ∷ [])))

-- The line of a section.
pub parse_line-section :
    (r : IniFileReader) (name : Bytes)
    → Lacks b']' name
    → parse_line r (b'[' ∷ (name ++ b']' ∷ [])) ≡ enter r name
unfolding parse_line
parse_line-section r name h =
    rw (leading-ink b'[' (name ++ b']' ∷ []) refl) (parse_section-named r name h)

-- What a key may start with.
abbrev pub Starts : ℕ → Type 0
Starts c = (c ≢ b'#') × (c ≢ b';') × (c ≢ b'[')

parse_value-quoted :
    (r : IniFileReader) (key v : Bytes)
    → Inked key
    → Lacks b'"' v
    → parse_value r (key ++ b'=' ∷ b'"' ∷ (v ++ b'"' ∷ [])) ≡ set r key v
unfolding parse_value
parse_value-quoted r key v ink h =
    rw (find_first b'=' key (b'"' ∷ (v ++ b'"' ∷ [])) (All-map (λ d p. p.1) key ink)) (
      rw
        (
          drop-append key (b'"' ∷ (v ++ b'"' ∷ [])) b'=',
          take-append key (b'=' ∷ b'"' ∷ (v ++ b'"' ∷ [])),
          trim_right-Inked key ink,
          trim_value-quoted v h,
        )
        refl)

-- The line of a key with a quoted value.
pub parse_line-setting :
    (r : IniFileReader) (c : ℕ) (cs v : Bytes)
    → Starts c
    → Inked (c ∷ cs)
    → Lacks b'"' v
    → parse_line r ((c ∷ cs) ++ b'=' ∷ b'"' ∷ (v ++ b'"' ∷ [])) ≡ set r (c ∷ cs) v
unfolding parse_line
parse_line-setting r c cs v (hash, semi, bracket) ink h =
    rw
      (
        leading-ink c (cs ++ b'=' ∷ b'"' ∷ (v ++ b'"' ∷ [])) ink.0.0,
        ==_ne c b'#' hash,
        ==_ne c b';' semi,
        ==_ne c b'[' bracket,
      )
      (parse_value-quoted r (c ∷ cs) v ink h)

-- An empty line, and a comment.
pub parse_line-empty : (r : IniFileReader) → parse_line r [] ≡ r
unfolding parse_line trim_left leading
parse_line-empty r = refl

pub parse_line-comment : (r : IniFileReader) (text : Bytes) → parse_line r (b'#' ∷ text) ≡ r
unfolding parse_line trim_left leading
parse_line-comment r text = refl
