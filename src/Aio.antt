-- ===== src/Aio.antt =====
-- include/xfutil/aio.h, src/aio.cpp, src/aio_cmd.cpp, src/aio_request.h: requests of several file
-- commands, worked off by threads. What a system call returns is an argument. A file descriptor is the
-- unsigned number that the `int` converts to, a pointer an address.
pub mod Process
pub mod Tally
pub mod Complete
pub mod Threads
pub mod Order
use xfutil.Base.{
  ℕ, zero, suc, ◌+◌, ◌%◌, ◌^◌, Bool, true, false, ltb, ◌==◌, if◌then◌else◌, List, [], ◌∷◌, ◌++◌,
  Option, none, some, length, get_elem?, set,
}

-- The constants `CMD_READ` to `CMD_FDATASYNC`.
abbrev pub cmd_read : ℕ
cmd_read = 0

abbrev pub cmd_write : ℕ
cmd_write = 1

abbrev pub cmd_readv : ℕ
cmd_readv = 2

abbrev pub cmd_writev : ℕ
cmd_writev = 3

abbrev pub cmd_min_pio : ℕ
cmd_min_pio = 4

abbrev pub cmd_pread : ℕ
cmd_pread = 5

abbrev pub cmd_pwrite : ℕ
cmd_pwrite = 6

abbrev pub cmd_preadv : ℕ
cmd_preadv = 7

abbrev pub cmd_pwritev : ℕ
cmd_pwritev = 8

abbrev pub cmd_readahead : ℕ
cmd_readahead = 9

abbrev pub cmd_fsync : ℕ
cmd_fsync = 10

abbrev pub cmd_fdatasync : ℕ
cmd_fdatasync = 11

-- `ret` is `none` for -1.
pub record Command : Type 0 where
  pub cmd : ℕ
  pub fd : ℕ
  pub pos : ℕ
  pub buf : ℕ
  pub size : ℕ
  pub ret : Option ℕ
  pub error : ℕ

-- `Set(cmd, fd, buf, size)` and `Set(cmd, fd, pos, buf, size)`
unfoldable pub set_plain : Command → ℕ → ℕ → ℕ → ℕ → Command
set_plain c cmd fd buf size = record c {
  cmd = cmd;
  fd = fd;
  buf = buf;
  size = size;
  ret = none;
  error = 0;
}

unfoldable pub set_at : Command → ℕ → ℕ → ℕ → ℕ → ℕ → Command
set_at c cmd fd pos buf size = record c {
  cmd = cmd;
  fd = fd;
  pos = pos;
  buf = buf;
  size = size;
  ret = none;
  error = 0;
}

-- The overloads of `Read` and `Write`, `ReadAhead`, `Sync` and `DataSync`.
unfoldable pub read : Command → ℕ → ℕ → ℕ → Command
read c = set_plain c cmd_read

unfoldable pub write : Command → ℕ → ℕ → ℕ → Command
write c = set_plain c cmd_write

unfoldable pub read_at : Command → ℕ → ℕ → ℕ → ℕ → Command
read_at c = set_at c cmd_pread

unfoldable pub write_at : Command → ℕ → ℕ → ℕ → ℕ → Command
write_at c = set_at c cmd_pwrite

unfoldable pub readv : Command → ℕ → ℕ → ℕ → Command
readv c = set_plain c cmd_readv

unfoldable pub writev : Command → ℕ → ℕ → ℕ → Command
writev c = set_plain c cmd_writev

unfoldable pub readv_at : Command → ℕ → ℕ → ℕ → ℕ → Command
readv_at c = set_at c cmd_preadv

unfoldable pub writev_at : Command → ℕ → ℕ → ℕ → ℕ → Command
writev_at c = set_at c cmd_pwritev

unfoldable pub read_ahead : Command → ℕ → ℕ → ℕ → Command
read_ahead c fd pos size = set_at c cmd_readahead fd pos 0 size

unfoldable pub sync : Command → ℕ → Command
sync c fd = set_at c cmd_fsync fd 0 0 0

unfoldable pub data_sync : Command → ℕ → Command
data_sync c fd = set_at c cmd_fdatasync fd 0 0 0

-- `cmd.cmd < CMD_MIN_PIO`
abbrev pub is_sequential : Command → Bool
is_sequential c = ltb c.cmd cmd_min_pio
