-- ===== src/Coding.antt =====
-- include/xfutil/coding.h and src/coding.cpp: encoders that write at a pointer and return the next
-- one, decoders that take a value by reference and advance a pointer below an end.
pub mod Fixed
pub mod ZigZag
pub mod Backward
pub mod Varint
pub mod Text
use xfutil.Base.{ℕ, Bool}

-- What a decoder leaves: its result, the pointer that it advanced, and the value by reference.
pub record Decoded (A : Type 0) : Type 0 where
  pub ret : Bool
  pub buf : ℕ
  pub v : A
