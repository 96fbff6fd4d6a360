-- ===== src/Aio/Process.antt =====
-- src/aio.cpp: `ProcessRequest`, and `Request` of src/aio_request.h. The threads that work on one
-- request share its counters: a step is what one of them does up to the next access to a counter.
use xfutil.Base.{
  ℕ, ◌+◌, ◌-◌, ◌%◌, ◌^◌, ◌≡◌, ◌==◌, if◌then◌else◌, List, [], ◌∷◌, ◌++◌, Option, none, some, length,
  map, get_elem?, set,
}
use xfutil.Aio.{
  Command, cmd_read, cmd_write, cmd_readv, cmd_writev, cmd_pread, cmd_pwrite, cmd_preadv,
  cmd_pwritev, cmd_readahead, cmd_fsync, cmd_fdatasync,
}

-- The system calls, with their arguments.
pub data SysCall : Type 0 where
  read write readv writev : (fd buf size : ℕ) → SysCall
  pread pwrite preadv pwritev : (fd buf size pos : ℕ) → SysCall
  readahead : (fd pos size : ℕ) → SysCall
  fsync fdatasync : (fd : ℕ) → SysCall

-- The `switch`: `none` for the default case.
unfoldable pub call_of : Command → Option SysCall
call_of c =
    if c.cmd == cmd_read
    then some (read c.fd c.buf c.size)
    else if c.cmd == cmd_write
    then some (write c.fd c.buf c.size)
    else if c.cmd == cmd_readv
    then some (readv c.fd c.buf (c.size % 2 ^ 32))
    else if c.cmd == cmd_writev
    then some (writev c.fd c.buf (c.size % 2 ^ 32))
    else if c.cmd == cmd_pread
    then some (pread c.fd c.buf c.size c.pos)
    else if c.cmd == cmd_pwrite
    then some (pwrite c.fd c.buf c.size c.pos)
    else if c.cmd == cmd_preadv
    then some (preadv c.fd c.buf (c.size % 2 ^ 32) c.pos)
    else if c.cmd == cmd_pwritev
    then some (pwritev c.fd c.buf (c.size % 2 ^ 32) c.pos)
    else if c.cmd == cmd_readahead
    then some (readahead c.fd c.pos c.size)
    else if c.cmd == cmd_fsync
    then some (fsync c.fd)
    else if c.cmd == cmd_fdatasync
    then some (fdatasync c.fd)
    else none

-- What system calls return: `none` for -1, and the `errno` that they leave.
abbrev pub Sys : Type 0
Sys = SysCall → Option ℕ × ℕ

-- `EINVAL`
abbrev pub einval : ℕ
einval = 22

-- `cmd.error = LastError`, if the result is -1.
abbrev pub with_result : Command → Option ℕ × ℕ → Command
with_result c (none, errno) = record c { ret = none; error = errno }
with_result c (some n, errno) = record c { ret = some n }

-- The command after the `switch` and the test of its result.
unfoldable pub execute : Sys → Command → Command
unfolding call_of
execute sys c = elim (call_of c) [
  | none ↦ with_result c (none, einval)
  | some k ↦ with_result c (sys k)
]

-- Where the thread that has a command stands: before it, before `m_completed_cnt.fetch_add`, done, or
-- the last one, which has the callback to make or has made it.
pub data Phase : Type 0 where
  queued ran over last called : Phase

pub record Slot : Type 0 where
  pub command : Command
  pub phase : Phase

-- `calls` are the failure counts that the callback was called with.
pub record Request : Type 0 where
  pub slots : List Slot
  pub cmd_fail_cnt : ℕ
  pub completed_cnt : ℕ
  pub calls : List ℕ

-- The constructor.
unfoldable pub new_request : List Command → Request
new_request cmds = record {
  slots = map (λ c. record { command = c; phase = queued }) cmds;
  cmd_fail_cnt = 0;
  completed_cnt = 0;
  calls = [];
}

abbrev pub failures : Option ℕ → ℕ
failures none = 1
failures (some n) = 0

-- The system call, and `m_cmd_fail_cnt.fetch_add(1)` if it failed.
unfoldable pub run_command : Sys → Request → ℕ → Command → Request
run_command sys r i c = record r {
  slots = set r.slots i (record { command = execute sys c; phase = ran });
  cmd_fail_cnt = (r.cmd_fail_cnt + failures (execute sys c).ret) % 2 ^ 32;
}

-- `m_completed_cnt.fetch_add(1)` and the test of the count before.
unfoldable pub complete_command : Request → ℕ → Command → Request
complete_command r i c =
    let phase = if r.completed_cnt == length r.slots - 1 then last else over in
    record r {
      slots = set r.slots i (record { command = c; phase = phase });
      completed_cnt = (r.completed_cnt + 1) % 2 ^ 32;
    }

-- The callback, with what `m_cmd_fail_cnt.load()` gives.
unfoldable pub call_back : Request → ℕ → Command → Request
call_back r i c = record r {
  slots = set r.slots i (record { command = c; phase = called });
  calls = r.calls ++ r.cmd_fail_cnt ∷ [];
}

-- A step of the thread that has the command at `i`.
pub data Step : Request → Request → Type 0 where
  run :
      {r : Request} (sys : Sys) (i : ℕ) (c : Command)
      → get_elem? r.slots i ≡ some (record { command = c; phase = queued })
      → Step r (run_command sys r i c)
  complete :
      {r : Request} (i : ℕ) (c : Command)
      → get_elem? r.slots i ≡ some (record { command = c; phase = ran })
      → Step r (complete_command r i c)
  call :
      {r : Request} (i : ℕ) (c : Command)
      → get_elem? r.slots i ≡ some (record { command = c; phase = last })
      → Step r (call_back r i c)

-- The threads' steps on a new request of these commands, in any order.
pub data Steps (cmds : List Command) : Request → Type 0 where
  created : Steps cmds (new_request cmds)
  then_ : {r r' : Request} → Steps cmds r → Step r r' → Steps cmds r'
