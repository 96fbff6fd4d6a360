-- ===== src/Aio/Threads.antt =====
-- src/aio.cpp: `Start`, `Submit`, `Stop` and the threads' loops. A request is named by its pointer; a
-- queue is the list of what was pushed and not popped, and the queues have no capacity to reach.
use xfutil.Base.{
  ℕ, zero, suc, ◌+◌, ◌*◌, ◌%◌, ◌^◌, Bool, true, false, if◌then◌else◌, List, [], ◌∷◌, ◌++◌, Option,
  none, some, length, map, get_or, set, replicate,
}
use xfutil.Base.Int.{ℤ, pos, negsuc}
use xfutil.Aio.{Command, is_sequential}

pub data AioState : Type 0 where
  stopped starting started stopping : AioState

abbrev pub is_stopped : AioState → Bool
is_stopped stopped = true
is_stopped starting = false
is_stopped started = false
is_stopped stopping = false

abbrev pub is_started : AioState → Bool
is_started stopped = false
is_started starting = false
is_started started = true
is_started stopping = false

pub record RequestEx : Type 0 where
  pub request : ℕ
  pub cmd_idx : ℕ

-- `none` is the empty request that ends a thread.
abbrev pub Queue : Type 0
Queue = List (Option RequestEx)

pub record Aio : Type 0 where
  pub state : AioState
  pub reqid : ℕ
  pub io_queues : List Queue
  pub pio_queue : Queue
  pub pio_threads : ℕ

-- The state before the first `Start`.
unfoldable pub initial : Aio
initial = record { state = stopped; reqid = 1; io_queues = []; pio_queue = []; pio_threads = 0 }

-- A negative number of threads is a multiple of the number of processors.
unfoldable pub thread_num : ℕ → ℤ → ℕ
thread_num cpus (pos n) = n
thread_num cpus (negsuc n) = suc n * cpus

-- `Start(io_threadnum, pio_threadnum)`: `false` for -1.
unfoldable pub start : ℕ → Aio → ℤ → ℤ → Aio × Bool
start cpus aio io_threadnum pio_threadnum =
    let begun = record aio {
      state = started;
      io_queues = replicate (thread_num cpus io_threadnum) [];
      pio_threads = thread_num cpus pio_threadnum;
    } in
    if is_stopped aio.state then (begun, true) else (aio, false)

-- `s_io_request_queues[i].Push(req_ex)`
unfoldable pub push_io : Aio → ℕ → Option RequestEx → Aio
push_io aio i req_ex = record aio {
  io_queues = set aio.io_queues i (get_or aio.io_queues i [] ++ req_ex ∷ []);
}

unfoldable pub push_pio : Aio → Option RequestEx → Aio
push_pio aio req_ex = record aio { pio_queue = aio.pio_queue ++ req_ex ∷ [] }

-- The push of one command: on the queue that its file has, or on the common one.
unfoldable pub push_command : Aio → RequestEx → Command → Aio
unfolding push_io push_pio
push_command aio req_ex c =
    if is_sequential c
    then push_io aio (c.fd % length aio.io_queues) (some req_ex)
    else push_pio aio (some req_ex)

-- The loop of `Submit`, from command `i` on.
unfoldable pub submit_loop : ℕ → ℕ → List Command → Aio → Aio
submit_loop request i [] aio = aio
submit_loop request i (c ∷ cmds) aio =
    let req_ex : RequestEx = record { request = request; cmd_idx = i } in
    submit_loop request (suc i) cmds (push_command aio req_ex c)

-- `Submit(cmds, cb, arg)`: the new request's pointer is an argument.
unfoldable pub submit : Aio → ℕ → List Command → Aio × ℕ
unfolding submit_loop
submit aio request cmds =
    let pushed = submit_loop request 0 cmds aio in
    if is_started aio.state
    then (record pushed { reqid = (pushed.reqid + 1) % 2 ^ 64 }, pushed.reqid)
    else (aio, 0)

-- The loop of a thread on its queue: the requests that it processes, and the queue that it leaves, or
-- `none` if it waits.
unfoldable pub thread_loop : Queue → List RequestEx × Option Queue
thread_loop [] = ([], none)
thread_loop (none ∷ q) = ([], some q)
thread_loop (some r ∷ q) = let (rs, left) = thread_loop q in (r ∷ rs, left)

-- What `Stop` pushes on the queue of one thread, and on the common one.
unfoldable pub stop_pushes : Aio → Aio
stop_pushes aio = record aio {
  state = stopping;
  io_queues = map (λ q. q ++ none ∷ []) aio.io_queues;
  pio_queue = aio.pio_queue ++ replicate aio.pio_threads none;
}

-- What the threads on the common queue leave of it: `threads` of them end on an empty request each.
unfoldable pub drain : ℕ → Queue → Queue
drain zero q = q
drain (suc threads) [] = []
drain (suc threads) (none ∷ q) = drain threads q
drain (suc threads) (some r ∷ q) = drain (suc threads) q

-- `Stop()`, once the threads have ended: `false` for -1.
unfoldable pub stop : Aio → Aio × Bool
unfolding stop_pushes drain
stop aio =
    let pushed = stop_pushes aio in
    let ended = record pushed {
      state = stopped;
      io_queues = [];
      pio_queue = drain aio.pio_threads pushed.pio_queue;
    } in
    if is_started aio.state then (ended, true) else (aio, false)
