-- ===== src/Time/RoundTrip.antt =====
-- src/time.cpp: what the formatting functions write, and parsing it.
use xfutil.Base.{
  take_whole, ℕ, ◌+◌, ◌-◌, ◌*◌, ◌/◌, ◌%◌, ◌^◌, ◌≤◌, ◌<◌, ◌≡◌, refl, arith, ◌∙◌, List, [], ◌∷◌, ◌++◌,
  some, bit_or, bit_and, take, length, length-append, append_assoc, le→ltb_false,
}
use xfutil.Base.Bits.{bit_and_low5, bit_and_low6, bit_and_16, bit_or_comm, bit_or_field}
use native.Mathlib.Nat.{mod-eq_of_lt}
use xfutil.Memory.{Mem, read}
use xfutil.Memory.Laws.{read-write_self}
use xfutil.Time.{parse_time, format_time, format_date, snprintf, time_text, date_text}
use xfutil.Time.Digits.{padded_two, strtol_two}

-- Three fields put together.
fields_joined :
    (h m s : ℕ)
    → h < 2 ^ 20
    → m < 64
    → s < 64
    → bit_or (bit_or (h * 2 ^ 12 % 2 ^ 32) (m * 2 ^ 6 % 2 ^ 32)) s ≡ h * 4096 + m * 64 + s
fields_joined h m s hh hm hs =
    let top : h * 2 ^ 12 % 2 ^ 32 ≡ h * 2 ^ 12 = mod-eq_of_lt (omega arith) in
    let middle : m * 2 ^ 6 % 2 ^ 32 ≡ m * 2 ^ 6 = mod-eq_of_lt (omega arith) in
    let joined : bit_or (h * 2 ^ 12) (m * 2 ^ 6) ≡ (m + h * 64) * 2 ^ 6 =
      bit_or_comm _ _ ∙ bit_or_field 12 (m * 2 ^ 6) h (omega arith) ∙ omega arith in
    rw (top, middle, joined)
      (bit_or_comm _ s ∙ bit_or_field 6 s (m + h * 64) (omega arith) ∙ omega arith)

-- The text of a time with two digits in each field.
time_text-digits :
    (h m s : ℕ)
    → h < 100
    → m < 100
    → s < 100
    → time_text h m s
      ≡ (48 + h / 10)
        ∷ (48 + h % 10)
        ∷ b':'
        ∷ (48 + m / 10)
        ∷ (48 + m % 10)
        ∷ b':'
        ∷ (48 + s / 10)
        ∷ (48 + s % 10)
        ∷ []
unfolding time_text
time_text-digits h m s hh hm hs = rw (padded_two h hh, padded_two m hm, padded_two s hs) refl

whole : (n : ℕ) → n / 10 * 10 + n % 10 ≡ n
whole n = omega arith

parse-time_text :
    (h m s : ℕ) (rest : List ℕ)
    → h < 100
    → m < 64
    → s < 64
    → parse_time (time_text h m s ++ 0 ∷ rest) 8 ≡ h * 4096 + m * 64 + s
unfolding parse_time
parse-time_text h m s rest hh hm hs = rw (time_text-digits h m s hh (omega arith) (omega arith)) (
    rw
      (
        strtol_two (h / 10) (h % 10) b':' _ (omega arith) (omega arith) refl,
        strtol_two (m / 10) (m % 10) b':' _ (omega arith) (omega arith) refl,
        strtol_two (s / 10) (s % 10) 0 _ (omega arith) (omega arith) refl,
      )
      (rw (whole h, whole m, whole s) (fields_joined h m s (omega arith) hm hs)))

length-time_text : (h m s : ℕ) → h < 100 → m < 100 → s < 100 → length (time_text h m s) ≡ 8
length-time_text h m s hh hm hs = rw (time_text-digits h m s hh hm hs) refl

-- A buffer with room for the text and the null holds both.
read-snprintf :
    (mem : Mem) (buf buf_len n : ℕ) (text : List ℕ)
    → length text ≡ n
    → n < buf_len
    → read (snprintf mem buf buf_len text).0 buf (n + 1) ≡ text ++ 0 ∷ []
unfolding snprintf
read-snprintf mem buf buf_len n text e room = rw (take_whole (buf_len - 1) text (omega arith)) (
    read-write_self (text ++ 0 ∷ []) mem buf (n + 1)
      (omega (arith, length-append {0} text (0 ∷ []))))

format_time-snprintf :
    (mem : Mem) (buf buf_len time_ : ℕ)
    → 8 ≤ buf_len
    → format_time mem buf buf_len time_ ≡ (
      (snprintf mem buf buf_len (time_text (time_ / 2 ^ 12) (time_ / 2 ^ 6 % 64) (time_ % 64))).0,
      some
          (snprintf mem buf buf_len
            (time_text (time_ / 2 ^ 12) (time_ / 2 ^ 6 % 64) (time_ % 64))).1,
    )
unfolding format_time
format_time-snprintf mem buf buf_len time_ room =
    rw (le→ltb_false _ _ room, bit_and_low6 (time_ / 2 ^ 6), bit_and_low6 time_) refl

-- `ParseTime` of what `FormatTime` wrote into a buffer of at least nine bytes gives the time back, if
-- its hours have two digits.
pub parse_time-format_time :
    (mem : Mem) (buf buf_len time_ : ℕ) (rest : List ℕ)
    → 9 ≤ buf_len
    → time_ < 100 * 2 ^ 12
    → parse_time (read (format_time mem buf buf_len time_).0 buf 9 ++ rest) 8 ≡ time_
parse_time-format_time mem buf buf_len time_ rest room h =
    let eight =
      length-time_text (time_ / 2 ^ 12) (time_ / 2 ^ 6 % 64) (time_ % 64) (omega arith)
        (omega arith) (omega arith) in
    rw
      (
        format_time-snprintf mem buf buf_len time_ (omega arith),
        read-snprintf mem buf buf_len 8 _ eight room,
      )
      (rw
        (append_assoc (time_text (time_ / 2 ^ 12) (time_ / 2 ^ 6 % 64) (time_ % 64)) (0 ∷ []) rest)
        (parse-time_text (time_ / 2 ^ 12) (time_ / 2 ^ 6 % 64) (time_ % 64) rest (omega arith)
            (omega arith) (omega arith)
          ∙ omega arith))

-- `FormatTime` into a buffer of eight bytes, which it accepts, writes the first seven bytes of the
-- text and a null: the last digit of the seconds is lost.
pub format_time_cut :
    (mem : Mem) (buf time_ : ℕ)
    → time_ < 100 * 2 ^ 12
    → read (format_time mem buf 8 time_).0 buf 8
      ≡ take 7 (time_text (time_ / 2 ^ 12) (time_ / 2 ^ 6 % 64) (time_ % 64)) ++ 0 ∷ []
unfolding snprintf
format_time_cut mem buf time_ h = rw (format_time-snprintf mem buf 8 time_ (omega arith)) (
    read-write_self (take 7 text ++ 0 ∷ []) mem buf 8 (
      rw
        (time_text-digits (time_ / 2 ^ 12) (time_ / 2 ^ 6 % 64) (time_ % 64) (omega arith)
          (omega arith) (omega arith))
        refl))
  where
    text : List ℕ
    text = time_text (time_ / 2 ^ 12) (time_ / 2 ^ 6 % 64) (time_ % 64)

-- `FormatDate` prints as the month 16 where the year is odd and 0 where it is even, whatever month the
-- date has.
pub format_date-month :
    (mem : Mem) (buf buf_len y m d : ℕ)
    → 10 ≤ buf_len
    → m < 16
    → d < 32
    → format_date mem buf buf_len (y * 2 ^ 9 + m * 2 ^ 5 + d) ≡ (
      (snprintf mem buf buf_len (date_text y (16 * (y % 2)) d)).0,
      some (snprintf mem buf buf_len (date_text y (16 * (y % 2)) d)).1,
    )
unfolding format_date
format_date-month mem buf buf_len y m d room hm hd =
    let year : (y * 2 ^ 9 + m * 2 ^ 5 + d) / 2 ^ 9 ≡ y = omega arith in
    let month : bit_and ((y * 2 ^ 9 + m * 2 ^ 5 + d) / 2 ^ 5) 16 ≡ 16 * (y % 2) =
      bit_and_16 _ ∙ omega arith in
    let day : bit_and (y * 2 ^ 9 + m * 2 ^ 5 + d) 31 ≡ d = bit_and_low5 _ ∙ omega arith in
    rw (le→ltb_false _ _ room, year, month, day) refl
