-- ===== src/Unpack.antt =====
-- include/xfutil/unpack.h, src/unpack.cpp: the class `Unpacker`. The blocks of its buffer are an
-- argument, and so is `empty`, the address of the literal "" that it points to behind the last block.
pub mod Read
pub mod Blocks
pub mod Sequence
use xfutil.Base.{
  ℕ, suc, ◌+◌, ◌%◌, ◌^◌, Bool, true, false, leb, if◌then◌else◌, List, Option, none, some, get_elem?,
}
use xfutil.Memory.{Mem}
use xfutil.Coding.{Decoded}
use xfutil.Coding.Fixed.{decode_fixed8, decode_fixed16, decode_fixed32, decode_fixed64}
use xfutil.Coding.Varint.{decode_varint, decode_varint_narrow}
use xfutil.Coding.ZigZag.{decode_zig_zag}
use xfutil.Coding.Text.{StrView, decode_string}
use xfutil.Pack.{Block}

-- `next` is `m_block_buffer_idx + 1`.
pub record Unpacker : Type 0 where
  pub next : ℕ
  pub ptr : ℕ
  pub buf_end : ℕ

-- What a call returns, the object after it, and the value by reference.
pub record Unpacked (A : Type 0) : Type 0 where
  pub ret : Bool
  pub unpacker : Unpacker
  pub v : A

unfoldable pub next_block : ℕ → List Block → Unpacker → Bool × Unpacker
next_block empty blocks u = elim (get_elem? blocks u.next) [
  | none ↦ (false, record { next = suc u.next; ptr = empty; buf_end = empty })
  | some b ↦ (true, record { next = suc u.next; ptr = b.buf; buf_end = b.buf + b.size })
]

-- The constructor. The pointers that it leaves unset until `NextBlock` are 0.
unfoldable pub new : ℕ → List Block → Unpacker
unfolding next_block
new empty blocks = (next_block empty blocks (record { next = 0; ptr = 0; buf_end = 0 })).1

-- Every `Unpack` moves on to the next block when it stands at the end of one, and then decodes.
unfoldable pub unpack_with :
    {A : Type 0} → (ℕ → ℕ → Decoded A) → ℕ → List Block → A → Unpacker → Unpacked A
unfolding next_block
unpack_with decode empty blocks v u =
    let (ok, at) = if leb u.buf_end u.ptr then next_block empty blocks u else (true, u) in
    let d = decode at.ptr at.buf_end in
    if ok
    then record { ret = d.ret; unpacker = record at { ptr = d.buf }; v = d.v }
    else record { ret = false; unpacker = at; v = v }

unfoldable pub unpack_u8 : Mem → ℕ → List Block → ℕ → Unpacker → Unpacked ℕ
unpack_u8 mem empty blocks v = unpack_with (λ buf end. decode_fixed8 mem buf end v) empty blocks v

unfoldable pub unpack_fixed16 : Mem → ℕ → List Block → ℕ → Unpacker → Unpacked ℕ
unpack_fixed16 mem empty blocks v =
    unpack_with (λ buf end. decode_fixed16 mem buf end v) empty blocks v

unfoldable pub unpack_fixed32 : Mem → ℕ → List Block → ℕ → Unpacker → Unpacked ℕ
unpack_fixed32 mem empty blocks v =
    unpack_with (λ buf end. decode_fixed32 mem buf end v) empty blocks v

unfoldable pub unpack_fixed64 : Mem → ℕ → List Block → ℕ → Unpacker → Unpacked ℕ
unpack_fixed64 mem empty blocks v =
    unpack_with (λ buf end. decode_fixed64 mem buf end v) empty blocks v

unfoldable pub unpack_u16 : Mem → ℕ → List Block → ℕ → Unpacker → Unpacked ℕ
unpack_u16 mem = unpack_with (decode_varint_narrow 16 mem)

unfoldable pub unpack_u32 : Mem → ℕ → List Block → ℕ → Unpacker → Unpacked ℕ
unpack_u32 mem = unpack_with (decode_varint_narrow 32 mem)

unfoldable pub unpack_u64 : Mem → ℕ → List Block → ℕ → Unpacker → Unpacked ℕ
unpack_u64 mem = unpack_with (decode_varint mem)

unfoldable pub unpack_string : Mem → ℕ → List Block → StrView → Unpacker → Unpacked StrView
unpack_string mem empty blocks v =
    unpack_with (λ buf end. decode_string mem buf end v) empty blocks v

-- `Unpack` of a signed value of `w` bits: the value is set only if the unsigned one could be read.
unfoldable pub unpack_signed : ℕ → ℕ → Unpacked ℕ → Unpacked ℕ
unpack_signed w v r = record r { v = if r.ret then decode_zig_zag w r.v else v }

unfoldable pub unpack_i16 : Mem → ℕ → List Block → ℕ → Unpacker → Unpacked ℕ
unpack_i16 mem empty blocks v u = unpack_signed 16 v (unpack_u16 mem empty blocks 0 u)

unfoldable pub unpack_i32 : Mem → ℕ → List Block → ℕ → Unpacker → Unpacked ℕ
unpack_i32 mem empty blocks v u = unpack_signed 32 v (unpack_u32 mem empty blocks 0 u)

unfoldable pub unpack_i64 : Mem → ℕ → List Block → ℕ → Unpacker → Unpacked ℕ
unpack_i64 mem empty blocks v u = unpack_signed 64 v (unpack_u64 mem empty blocks 0 u)
