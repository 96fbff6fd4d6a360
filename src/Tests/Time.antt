-- ===== src/Tests/Time.antt =====
-- src/time.cpp at concrete inputs.
use xfutil.Base.{◌+◌, ◌*◌, ◌≡◌, refl, arith, [], ◌∷◌, ◌++◌}
use xfutil.Memory.{Mem, read}
use xfutil.Time.{parse_time, format_time, strtol, digits_value, skip_space}
use xfutil.Time.RoundTrip.{parse_time-format_time}

abbrev blank : Mem
blank q = 0

-- "12:34:567" with eight bytes given: the seconds are read past the end.
reads_past_end :
    parse_time (b'1' ∷ b'2' ∷ b':' ∷ b'3' ∷ b'4' ∷ b':' ∷ b'0' ∷ b'1' ∷ b'9' ∷ 0 ∷ []) 8
    ≡ 12 * 4096 + 34 * 64 + 19
unfolding parse_time strtol digits_value skip_space
reads_past_end = refl

parse_time-format_time_example :
    parse_time (read (format_time blank 64 16 (23 * 4096 + 59 * 64 + 58)).0 64 9 ++ 7 ∷ []) 8
    ≡ 23 * 4096 + 59 * 64 + 58
parse_time-format_time_example =
    parse_time-format_time blank 64 16 (23 * 4096 + 59 * 64 + 58) (7 ∷ []) (omega arith)
      (omega arith)
