-- ===== src/File.antt =====
-- include/xfutil/file.h, src/file.cpp: the class `File`. What system calls return is an argument:
-- `none` for -1, with the `errno` that they leave. A descriptor is `none` for `INVALID_FILEID`.
pub mod Retry
pub mod Copy
use xfutil.Base.{
  ℕ, zero, suc, ◌+◌, ◌-◌, ◌^◌, Bool, true, false, not, ◌&&◌, ◌||◌, ltb, ◌==◌, if◌then◌else◌, List,
  [], ◌∷◌, ◌++◌, Option, none, some, length, take,
}
use xfutil.Aio.Process.{SysCall, Sys, read, write, readv, writev, pread, pwrite, preadv, pwritev}

pub record File : Type 0 where
  pub fid : Option ℕ

-- The constructor.
unfoldable pub new : File
new = record { fid = none }

abbrev pub is_open : Option ℕ → Bool
is_open none = false
is_open (some fd) = true

-- `Open(file_path, flags)`, with what `open` returns.
unfoldable pub open_ : File → Option ℕ → File × Bool
open_ f fd = (record { fid = fd }, is_open fd)

-- `Close()`, with the descriptor that it closes.
unfoldable pub close : File → File × Option ℕ
close f = (record { fid = none }, f.fid)

-- `EINTR`
abbrev pub eintr : ℕ
eintr = 4

abbrev pub is_interrupted : Option ℕ × ℕ → Bool
is_interrupted (none, errno) = errno == eintr
is_interrupted (some n, errno) = false

-- The loop of `Read` and of `Write` from the call with the number `k` on; `none` if the calls on the
-- fuel are all interrupted.
unfoldable pub retry : ℕ → (ℕ → Option ℕ × ℕ) → ℕ → Option (Option ℕ)
retry zero answer k = none
retry (suc fuel) answer k =
    let again = retry fuel answer (suc k) in
    if is_interrupted (answer k) then again else some (answer k).0

-- A descriptor as the `int` that it is, -1 in 32 bits.
abbrev pub fd_of : File → ℕ
fd_of f = elim f.fid [ none ↦ 2 ^ 32 - 1 | some fd ↦ fd ]

module _ (fuel : ℕ) (sys : ℕ → Sys) where
  -- The system call `call` until it is not interrupted.
  unfoldable pub transfer : SysCall → Option (Option ℕ)
  unfolding retry
  transfer call = retry fuel (λ k. sys k call) 0

  -- The four `Read` and the four `Write`.
  unfoldable pub read_buf : File → ℕ → ℕ → Option (Option ℕ)
  unfolding transfer
  read_buf f buf buf_size = transfer (read (fd_of f) buf buf_size)

  unfoldable pub read_iobuf : File → ℕ → ℕ → Option (Option ℕ)
  unfolding transfer
  read_iobuf f iobuf iobuf_cnt = transfer (readv (fd_of f) iobuf iobuf_cnt)

  unfoldable pub read_from : File → ℕ → ℕ → ℕ → Option (Option ℕ)
  unfolding transfer
  read_from f offset buf buf_size = transfer (pread (fd_of f) buf buf_size offset)

  unfoldable pub read_iobuf_from : File → ℕ → ℕ → ℕ → Option (Option ℕ)
  unfolding transfer
  read_iobuf_from f offset iobuf iobuf_cnt = transfer (preadv (fd_of f) iobuf iobuf_cnt offset)

  unfoldable pub write_buf : File → ℕ → ℕ → Option (Option ℕ)
  unfolding transfer
  write_buf f buf buf_size = transfer (write (fd_of f) buf buf_size)

  unfoldable pub write_iobuf : File → ℕ → ℕ → Option (Option ℕ)
  unfolding transfer
  write_iobuf f iobuf iobuf_cnt = transfer (writev (fd_of f) iobuf iobuf_cnt)

  unfoldable pub write_to : File → ℕ → ℕ → ℕ → Option (Option ℕ)
  unfolding transfer
  write_to f offset buf buf_size = transfer (pwrite (fd_of f) buf buf_size offset)

  unfoldable pub write_iobuf_to : File → ℕ → ℕ → ℕ → Option (Option ℕ)
  unfolding transfer
  write_iobuf_to f offset iobuf iobuf_cnt = transfer (pwritev (fd_of f) iobuf iobuf_cnt offset)

-- `Allocate(size)` and `Seek(offset)`, with the number that `fallocate` and `lseek` return; -1 is
-- `none`. Either is converted to a `bool`.
abbrev pub to_bool : Option ℕ → Bool
to_bool none = true
to_bool (some n) = not (n == 0)

unfoldable pub allocate : Option ℕ → Bool
allocate ret = to_bool ret

unfoldable pub seek : Option ℕ → Bool
seek ret = to_bool ret

-- `ENOENT`
abbrev pub enoent : ℕ
enoent = 2

-- `Remove(filepath)`, with what `unlink` returns.
unfoldable pub remove : Option ℕ × ℕ → Bool
remove r = elim r.0 [ none ↦ r.1 == enoent | some n ↦ n == 0 ]

-- The loop of `Copy`: what each `Read` gives, `none` for an error, and what each `Write` returns; the
-- result, and the bytes that the destination has. `none` where a call has no answer.
unfoldable pub copy_loop :
    List (Option (List ℕ)) → List (Option ℕ) → List ℕ → Option (Bool × List ℕ)
copy_loop [] writes dst = none
copy_loop (none ∷ reads) writes dst = some (false, dst)
copy_loop (some [] ∷ reads) writes dst = some (true, dst)
copy_loop (some (b ∷ bytes) ∷ reads) [] dst = none
copy_loop (some (b ∷ bytes) ∷ reads) (none ∷ writes) dst = some (false, dst)
copy_loop (some (b ∷ bytes) ∷ reads) (some n ∷ writes) dst =
    let rest = copy_loop reads writes (dst ++ b ∷ bytes) in
    if n == length (b ∷ bytes) then rest else some (false, dst ++ take n (b ∷ bytes))

-- `Copy(src_filepath, dst_filepath, sync)`, with what the two `Open` return. The destination is
-- truncated when it is opened; `sync` changes neither the result nor the bytes.
unfoldable pub copy :
    Bool → Bool → List (Option (List ℕ)) → List (Option ℕ) → List ℕ → Option (Bool × List ℕ)
unfolding copy_loop
copy src_opens dst_opens reads writes old =
    if not src_opens
    then some (false, old)
    else if not dst_opens
    then some (false, old)
    else copy_loop reads writes []
