-- ===== src/Time.antt =====
-- src/time.cpp: times and dates packed into integers, and their texts. A text to parse is the list of
-- the bytes from the pointer on, what stands behind it included; a text is formatted into memory.
-- `strtol` of base 10 and `snprintf` are those of the C library, a `long` has 64 bits.
pub mod Digits
pub mod RoundTrip
use xfutil.Base.{
  ℕ, zero, suc, ◌+◌, ◌-◌, ◌*◌, ◌/◌, ◌%◌, ◌^◌, Bool, true, false, not, ◌&&◌, ◌||◌, ltb, leb, ◌==◌,
  if◌then◌else◌, bit_and, bit_or, min, List, [], ◌∷◌, ◌++◌, Option, none, some, length, take, drop,
  get_or, replicate,
}
use xfutil.Memory.{Mem, store, write}

-- `isspace`
abbrev pub is_space : ℕ → Bool
is_space c = c == 0x20 || leb 9 c && leb c 13

abbrev pub is_digit : ℕ → Bool
is_digit c = leb 48 c && leb c 57

-- The number that the leading digits show, behind `acc`.
unfoldable pub digits_value : ℕ → List ℕ → ℕ
digits_value acc [] = acc
digits_value acc (c ∷ cs) =
    let more = digits_value (acc * 10 + (c - 48)) cs in if is_digit c then more else acc

unfoldable pub skip_space : List ℕ → List ℕ
skip_space [] = []
skip_space (c ∷ cs) = let more = skip_space cs in if is_space c then more else c ∷ cs

-- `strtol(text, nullptr, 10)` of text without leading blanks, converted to a `uint32_t`.
abbrev pub strtol_sign : List ℕ → ℕ
strtol_sign [] = 0
strtol_sign (c ∷ cs) =
    if c == b'-'
    then (2 ^ 32 - min (digits_value 0 cs) (2 ^ 63) % 2 ^ 32) % 2 ^ 32
    else if c == b'+'
    then min (digits_value 0 cs) (2 ^ 63 - 1) % 2 ^ 32
    else min (digits_value 0 (c ∷ cs)) (2 ^ 63 - 1) % 2 ^ 32

unfoldable pub strtol : List ℕ → ℕ
unfolding digits_value skip_space
strtol text = strtol_sign (skip_space text)

-- `ParseTime(buf, buf_len)`
unfoldable pub parse_time : List ℕ → ℕ → ℕ
parse_time buf buf_len =
    let h = strtol buf in
    let m = strtol (drop 3 buf) in
    let s = strtol (drop 6 buf) in
    if not (buf_len == 8) || not (get_or buf 2 0 == b':') || not (get_or buf 5 0 == b':')
    then 2 ^ 32 - 1
    else bit_or (bit_or (h * 2 ^ 12 % 2 ^ 32) (m * 2 ^ 6 % 2 ^ 32)) s

-- `ParseDate(buf, buf_len)`
unfoldable pub parse_date : List ℕ → ℕ → ℕ
parse_date buf buf_len =
    let y = strtol buf in
    let m = strtol (drop 5 buf) in
    let d = strtol (drop 8 buf) in
    if not (buf_len == 10) || not (get_or buf 4 0 == b'-') || not (get_or buf 7 0 == b'-')
    then 2 ^ 32 - 1
    else bit_or (bit_or (y * 2 ^ 9 % 2 ^ 32) (m * 2 ^ 5 % 2 ^ 32)) d

-- `ParseDateTime(buf, buf_len)`
unfoldable pub parse_date_time : List ℕ → ℕ → ℕ
parse_date_time buf buf_len =
    let d = parse_date buf 10 in
    let t = parse_time (drop 11 buf) 8 in
    if not (buf_len == 19) || not (get_or buf 10 0 == b' ')
    then 2 ^ 64 - 1
    else if d == 2 ^ 32 - 1
    then 2 ^ 64 - 1
    else if t == 2 ^ 32 - 1
    then 2 ^ 64 - 1
    else bit_or (d * 2 ^ 32) t

-- `%u` of a `uint32_t`, which has at most ten digits.
unfoldable pub decimal : ℕ → ℕ → List ℕ
decimal zero n = []
decimal (suc fuel) n =
    let front = decimal fuel (n / 10) in
    if ltb n 10 then (48 + n) ∷ [] else front ++ (48 + n % 10) ∷ []

-- `%0wu`
unfoldable pub padded : ℕ → ℕ → List ℕ
unfolding decimal
padded w n = replicate (w - length (decimal 10 n)) 48 ++ decimal 10 n

-- `snprintf(buf, buf_len, ..)` of a text, for a `buf_len` above 0: at most `buf_len - 1` bytes of it
-- and a null. It returns the length of the whole text.
unfoldable pub snprintf : Mem → ℕ → ℕ → List ℕ → Mem × ℕ
snprintf mem buf buf_len text = (write mem buf (take (buf_len - 1) text ++ 0 ∷ []), length text)

-- `"%02u:%02u:%02u"` and `"%04u-%02u-%02u"`
unfoldable pub time_text : ℕ → ℕ → ℕ → List ℕ
time_text h m s = padded 2 h ++ (b':' ∷ (padded 2 m ++ (b':' ∷ padded 2 s)))

unfoldable pub date_text : ℕ → ℕ → ℕ → List ℕ
date_text y m d = padded 4 y ++ (b'-' ∷ (padded 2 m ++ (b'-' ∷ padded 2 d)))

-- `FormatTime(buf, buf_len, time_)`: `none` for -1.
unfoldable pub format_time : Mem → ℕ → ℕ → ℕ → Mem × Option ℕ
format_time mem buf buf_len time_ =
    let h = time_ / 2 ^ 12 in
    let m = bit_and (time_ / 2 ^ 6) 63 in
    let s = bit_and time_ 63 in
    let (mem', ret) = snprintf mem buf buf_len (time_text h m s) in
    if ltb buf_len 8 then (mem, none) else (mem', some ret)

-- `FormatDate(buf, buf_len, date_)`
unfoldable pub format_date : Mem → ℕ → ℕ → ℕ → Mem × Option ℕ
format_date mem buf buf_len date_ =
    let y = date_ / 2 ^ 9 in
    let m = bit_and (date_ / 2 ^ 5) 16 in
    let d = bit_and date_ 31 in
    let (mem', ret) = snprintf mem buf buf_len (date_text y m d) in
    if ltb buf_len 10 then (mem, none) else (mem', some ret)

-- The sum of two results, neither of them -1 in the calls below.
abbrev pub add_ret : Option ℕ → Option ℕ → Option ℕ
add_ret none r = none
add_ret (some n) none = none
add_ret (some n) (some m) = some (n + m)

-- `FormatDateTime(buf, buf_len, dt)`
unfoldable pub format_date_time : Mem → ℕ → ℕ → ℕ → Mem × Option ℕ
format_date_time mem buf buf_len dt =
    let date_ = dt / 2 ^ 32 in
    let time_ = dt % 2 ^ 32 in
    let (mem1, len1) = format_date mem buf 10 date_ in
    let (mem2, len2) = format_time (store mem1 (buf + 10) b' ') (buf + 11) 8 time_ in
    if ltb buf_len 19 then (mem, none) else (mem2, add_ret len1 len2)
