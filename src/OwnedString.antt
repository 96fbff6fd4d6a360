-- ===== src/OwnedString.antt =====
-- include/xfutil/strutil.h, src/strutil.cpp: the class `String`, and the two functions `StrCpy`. The
-- address that `malloc` gives is an argument, 0 for null; a freed block is not touched.
pub mod Contents
pub mod Copy
use xfutil.Base.{
  ℕ, zero, suc, ◌+◌, ◌-◌, ◌*◌, ◌%◌, ◌^◌, Bool, true, false, ltb, leb, ◌==◌, if◌then◌else◌, List, [],
  ◌∷◌,
}
use xfutil.Memory.{Mem, store, read, write}

pub record String : Type 0 where
  pub buf : ℕ
  pub size : ℕ
  pub capacity : ℕ

-- What a method returns, with the memory and the string after it.
pub record After : Type 0 where
  pub ret : Bool
  pub mem : Mem
  pub str : String

unfoldable pub new : String
new = record { buf = 0; size = 0; capacity = 0 }

-- `Empty()`
unfoldable pub empty : String → Bool
empty s = s.size == 0

-- `Reserve(size)`
unfoldable pub reserve : Mem → String → ℕ → ℕ → After
reserve mem s size fresh =
    if leb size s.capacity
    then record { ret = true; mem = mem; str = s }
    else if fresh == 0
    then record { ret = false; mem = mem; str = s }
    else record {
      ret = true;
      mem = if s.buf == 0 then mem else write mem fresh (read mem s.buf s.size);
      str = record s { buf = fresh; capacity = size };
    }

-- `Resize(size)`
unfoldable pub resize : Mem → String → ℕ → ℕ → After
unfolding reserve
resize mem s size fresh =
    let r = reserve mem s size fresh in
    if r.ret then record r { str = record r.str { size = size } } else r

-- The end of `Append`: the bytes are copied behind the others.
abbrev pub copy_in : After → ℕ → ℕ → After
copy_in r from n = record r {
  mem = write r.mem (r.str.buf + r.str.size) (read r.mem from n);
  str = record r.str { size = (r.str.size + n) % 2 ^ 64 };
}

-- `Append(data, size)`
unfoldable pub append : Mem → String → ℕ → ℕ → ℕ → After
unfolding reserve
append mem s from n fresh =
    let grown = reserve mem s ((n + s.capacity * 2) % 2 ^ 64) fresh in
    if ltb s.capacity ((s.size + n) % 2 ^ 64)
    then (if grown.ret then copy_in grown from n else grown)
    else copy_in (record { ret = true; mem = mem; str = s }) from n

-- `Clear()`
unfoldable pub clear : String → String
clear s = record s { size = 0 }

-- `Assign(data, size)`
unfoldable pub assign : Mem → String → ℕ → ℕ → ℕ → After
unfolding append clear
assign mem s from n fresh = append mem (clear s) from n fresh

-- `memccpy(dst, src, 0, n)` of the C library.
unfoldable pub memccpy : Mem → ℕ → ℕ → ℕ → Mem
memccpy mem dst src zero = mem
memccpy mem dst src (suc n) =
    let rest = memccpy (store mem dst (mem src)) (suc dst) (suc src) n in
    if mem src == 0 then store mem dst 0 else rest

-- `StrCpy(dst, dst_len, src)`
unfoldable pub str_cpy : Mem → ℕ → ℕ → ℕ → Mem
unfolding memccpy
str_cpy mem dst dst_len src = store (memccpy mem dst src dst_len) (dst + dst_len - 1) 0

-- `StrCpy(dst, dst_len, src, src_len)`, where one of the lengths is not 0.
unfoldable pub str_cpy_size : Mem → ℕ → ℕ → ℕ → ℕ → Mem
str_cpy_size mem dst dst_len src src_len =
    let min_len = if ltb dst_len src_len then dst_len else src_len in
    store (write mem dst (read mem src min_len)) (dst + min_len - 1) 0
