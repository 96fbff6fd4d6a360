-- ===== src/FileWatcher.antt =====
-- include/xfutil/file_watcher.h, src/file_watcher.cpp: the class `FileWatcher`. What system calls return is
-- an argument: `none` for -1. A callback is the list of its calls, each with the path and the events.
pub mod Add
pub mod Events
pub mod Handle
pub mod Read
use xfutil.Base.{
  ℕ, zero, suc, ◌+◌, ◌-◌, ◌*◌, ◌%◌, ◌^◌, Bool, true, false, ltb, leb, ◌==◌, bit_and, not,
  if◌then◌else◌, List, [], ◌∷◌, ◌++◌, Option, none, some,
}
use xfutil.Memory.{Mem}
use xfutil.OwnedString.Copy.{text}
use xfutil.Path.{combine}

-- `m_ifd`, and the map `m_paths`.
pub record FileWatcher : Type 0 where
  pub ifd : Option ℕ
  pub paths : List (ℕ × List ℕ)

-- `MAX_PATH_LEN`
abbrev pub max_path_len : ℕ
max_path_len = 256

abbrev pub is_valid : Option ℕ → Bool
is_valid none = false
is_valid (some fd) = true

abbrev pub insert : ℕ → List ℕ → List (ℕ × List ℕ) → List (ℕ × List ℕ)
insert wfd path [] = (wfd, path) ∷ []
insert wfd path ((w, p) ∷ rest) =
    let more = insert wfd path rest in if w == wfd then (wfd, path) ∷ rest else (w, p) ∷ more

abbrev pub find : ℕ → List (ℕ × List ℕ) → Option (List ℕ)
find wfd [] = none
find wfd ((w, p) ∷ rest) = let more = find wfd rest in if w == wfd then some p else more

abbrev pub watched : FileWatcher → List ℕ → Option ℕ → FileWatcher × Bool
watched w path none = (w, false)
watched w path (some wfd) = (record w { paths = insert wfd path w.paths }, true)

-- `Add(path, events)` without its assertion, with what `Directory::Exist` and `inotify_add_watch` return.
unfoldable pub add : Bool → (Option ℕ → Option ℕ) → FileWatcher → List ℕ → FileWatcher × Bool
add exists add_watch w path =
    if is_valid w.ifd
    then (w, false)
    else if not exists
    then (w, false)
    else watched w path (add_watch w.ifd)

-- `RemoveAll()`, with the descriptors that `inotify_rm_watch` is called for.
abbrev pub descriptors : List (ℕ × List ℕ) → List ℕ
descriptors [] = []
descriptors ((wfd, path) ∷ rest) = wfd ∷ descriptors rest

unfoldable pub remove_all : FileWatcher → FileWatcher × List ℕ
remove_all w = (record w { paths = [] }, descriptors w.paths)

-- A `uint32_t` in memory.
abbrev pub load : Mem → ℕ → ℕ
load mem p = mem p + 256 * (mem (p + 1) + 256 * (mem (p + 2) + 256 * mem (p + 3)))

-- The size of `struct inotify_event`, with the fields `wd`, `mask`, `cookie` and `len`.
abbrev pub event_size : ℕ
event_size = 16

-- `GetFilePath(wfd, file_name, file_path, MAX_PATH_LEN)`: no path where the descriptor has none.
abbrev pub path_in : Option (List ℕ) → List ℕ → Option (List ℕ)
path_in none file_name = none
path_in (some dir) file_name = some (combine max_path_len dir file_name)

unfoldable pub get_file_path : FileWatcher → ℕ → List ℕ → Option (List ℕ)
get_file_path w wfd file_name = path_in (find wfd w.paths) file_name

abbrev pub called : Option (List ℕ) → ℕ → List (List ℕ × ℕ) → List (List ℕ × ℕ)
called none mask calls = calls
called (some path) mask calls = (path, mask) ∷ calls

-- `HandleEvent(buf, end, cb, arg)`. A path shows at most 255 bytes of a name. A round takes at least
-- the size of an event, so the length of the buffer is enough fuel.
unfoldable pub handle_event : ℕ → FileWatcher → Mem → ℕ → ℕ → List (List ℕ × ℕ)
unfolding get_file_path
handle_event zero w mem buf end = []
handle_event (suc fuel) w mem buf end =
    let calls = handle_event fuel w mem (buf + event_size + load mem (buf + 12)) end in
    if ltb buf end
    then called (get_file_path w (load mem buf) (text mem (buf + event_size) 255))
        (load mem (buf + 4)) calls
    else []

-- What `poll` returns: a number above 0 with the events, 0, or -1 with `errno`.
pub data Poll : Type 0 where
  ready : (revents : ℕ) → Poll
  timeout : Poll
  failed : (errno : ℕ) → Poll

-- `EINTR` and `EAGAIN`
abbrev pub eintr : ℕ
eintr = 4

abbrev pub eagain : ℕ
eagain = 11

-- `Select(fd, events, timeout_ms)` on the answers of `poll`, with those that are left; `none` where
-- there are no more.
unfoldable pub select : List Poll → Option (Option ℕ × List Poll)
select [] = none
select (ready revents ∷ polls) = some (if bit_and revents 8 == 0 then some revents else none, polls)
select (timeout ∷ polls) = some (some 0, polls)
select (failed errno ∷ polls) =
    let again = select polls in if errno == eintr then again else some (none, polls)

-- What `read` gives: bytes in memory, none of them at the end, or -1 with `errno`.
pub data Got : Type 0 where
  bytes : (mem : Mem) (buf rsize : ℕ) → Got
  error : (errno : ℕ) → Got

abbrev pub no_events : Option ℕ → Bool
no_events none = true
no_events (some events) = events == 0

-- The calls of the callback, and then the others.
abbrev pub before :
    List (List ℕ × ℕ)
    → Option (Option ℕ × List (List ℕ × ℕ))
    → Option (Option ℕ × List (List ℕ × ℕ))
before calls none = none
before calls (some (ret, more)) = some (ret, calls ++ more)

-- `Read(timeout_ms, cb, arg)` on the answers of `read` and of `poll`: what it returns, and the calls.
unfoldable pub read : FileWatcher → List Got → List Poll → Option (Option ℕ × List (List ℕ × ℕ))
unfolding handle_event select
read w [] polls = none
read w (bytes mem buf rsize ∷ gots) polls =
    let more = read w gots polls in
    if ltb 0 rsize then before (handle_event rsize w mem buf (buf + rsize)) more else more
read w (error errno ∷ gots) polls =
    let more = read w gots polls in
    if errno == eagain
    then (elim (select polls) [
      | none ↦ none
      | some (events, rest) ↦ if no_events events then some (events, []) else read w gots rest
    ])
    else if errno == eintr
    then more
    else some (none, [])
