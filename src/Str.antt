-- ===== src/Str.antt =====
-- include/xfutil/strutil.h, src/strutil.cpp: the struct `StrView`. `memcmp` is the C library's, on
-- bytes. `char` is signed on the platform, so a byte from 0x80 on is a negative `char`.
pub mod Order
pub mod Trim
use xfutil.Base.{
  ℕ, zero, suc, ◌+◌, ◌-◌, ◌*◌, ◌%◌, ◌^◌, Bool, true, false, not, ◌&&◌, ◌||◌, ltb, leb, ◌==◌,
  if◌then◌else◌, List,
}
use xfutil.Memory.{Mem, read}
use xfutil.Coding.Text.{StrView}

-- The sign of an `int`.
pub data Sign : Type 0 where
  less same more : Sign

unfoldable pub memcmp : Mem → ℕ → ℕ → ℕ → Sign
memcmp mem a b zero = same
memcmp mem a b (suc n) =
    let rest = memcmp mem (suc a) (suc b) n in
    if ltb (mem a) (mem b) then less else if ltb (mem b) (mem a) then more else rest

abbrev pub is_same : Sign → Bool
is_same same = true
is_same less = false
is_same more = false

-- `MIN`
abbrev pub min_of : ℕ → ℕ → ℕ
min_of x y = if ltb x y then x else y

-- The bytes that a view shows.
abbrev pub bytes : Mem → StrView → List ℕ
bytes mem s = read mem s.data_ s.size

-- `Compare` after the `memcmp`.
abbrev pub by_size : ℕ → ℕ → Sign → Sign
by_size n m less = less
by_size n m same = if ltb n m then less else if ltb m n then more else same
by_size n m more = more

unfoldable pub compare_views : Mem → StrView → StrView → Sign
unfolding memcmp
compare_views mem s d = by_size s.size d.size (memcmp mem s.data_ d.data_ (min_of s.size d.size))

unfoldable pub lt_views : Mem → StrView → StrView → Bool
lt_views mem s d = elim (compare_views mem s d) [ less ↦ true | same ↦ false | more ↦ false ]

unfoldable pub eq_views : Mem → StrView → StrView → Bool
unfolding memcmp
eq_views mem s d = s.size == d.size && is_same (memcmp mem s.data_ d.data_ d.size)

unfoldable pub ne_views : Mem → StrView → StrView → Bool
unfolding memcmp
ne_views mem s d = not (s.size == d.size) || not (is_same (memcmp mem s.data_ d.data_ d.size))

unfoldable pub start_with : Mem → StrView → StrView → Bool
unfolding memcmp
start_with mem s str = leb str.size s.size && is_same (memcmp mem s.data_ str.data_ str.size)

unfoldable pub end_with : Mem → StrView → StrView → Bool
unfolding memcmp
end_with mem s str =
    leb str.size s.size && is_same (memcmp mem (s.data_ + (s.size - str.size)) str.data_ str.size)

-- The loop of `GetPrefixLength`.
unfoldable pub prefix_loop : Mem → ℕ → ℕ → ℕ → ℕ
prefix_loop mem a b zero = 0
prefix_loop mem a b (suc n) =
    let rest = prefix_loop mem (suc a) (suc b) n in if mem a == mem b then suc rest else 0

-- `GetPrefixLength` keeps the smaller size in a `uint32_t`.
unfoldable pub get_prefix_length : Mem → StrView → StrView → ℕ
unfolding prefix_loop
get_prefix_length mem s str = prefix_loop mem s.data_ str.data_ (min_of s.size str.size % 2 ^ 32)

-- `!(c > ' ')` for a signed `char`.
abbrev pub is_blank : ℕ → Bool
is_blank c = leb c 0x20 || leb 0x80 c

-- The loops of `TrimLeft` and `TrimRight`: how many characters to skip.
unfoldable pub skip_left : Mem → ℕ → ℕ → ℕ
skip_left mem p zero = 0
skip_left mem p (suc n) =
    let rest = skip_left mem (suc p) n in if is_blank (mem p) then suc rest else 0

unfoldable pub skip_right : Mem → ℕ → ℕ → ℕ
skip_right mem p zero = 0
skip_right mem p (suc n) =
    let rest = skip_right mem p n in if is_blank (mem (p + n)) then suc rest else 0

unfoldable pub trim_left : Mem → StrView → StrView
unfolding skip_left
trim_left mem s =
    let skip = skip_left mem s.data_ s.size in
    record { data_ = s.data_ + skip; size = s.size - skip }

unfoldable pub trim_right : Mem → StrView → StrView
unfolding skip_right
trim_right mem s = record s { size = s.size - skip_right mem s.data_ s.size }
