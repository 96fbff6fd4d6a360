-- ===== src/Aio/Order.antt =====
-- src/aio.cpp: which thread works on which commands, and in which order.
use xfutil.Base.{
  ℕ, zero, suc, ◌%◌, ◌<◌, ◌≡◌, refl, ap, sym, ◌∙◌, arith, Bool-cases, inl, inr, ◌==◌, ◌&&◌,
  if◌then◌else◌, List, [], ◌∷◌, ◌++◌, none, some, length, map, get_or, set, replicate, append_assoc,
  append-nil, length-set, length-replicate,
}
use native.Mathlib.Nat.{mod-lt}
use xfutil.Base.Int.{ℤ}
use xfutil.Aio.{Command, is_sequential}
use xfutil.Aio.Threads.{
  is_started, is_stopped, started, stopped, RequestEx, Queue, Aio, push_io, push_pio, push_command,
  submit_loop, submit, stop_pushes, thread_loop, thread_num, start,
}

-- The commands of a request that the thread `i` of `n` is for, from command `k` on.
abbrev pub for_thread : ℕ → ℕ → ℕ → ℕ → List Command → List RequestEx
for_thread n i request k [] = []
for_thread n i request k (c ∷ cmds) =
    if is_sequential c && c.fd % n == i
    then record { request = request; cmd_idx = k } ∷ for_thread n i request (suc k) cmds
    else for_thread n i request (suc k) cmds

-- The requests submitted one after the other.
abbrev pub submit_all : Aio → List (ℕ × List Command) → Aio
submit_all aio [] = aio
submit_all aio (r ∷ rs) = submit_all (submit aio r.0 r.1).0 rs

abbrev pub all_for_thread : ℕ → ℕ → List (ℕ × List Command) → List RequestEx
all_for_thread n i [] = []
all_for_thread n i (r ∷ rs) = for_thread n i r.0 0 r.1 ++ all_for_thread n i rs

get_or-set :
    (qs : List Queue) (j i : ℕ) (q : Queue)
    → j < length qs
    → get_or (set qs j q) i [] ≡ (if j == i then q else get_or qs i [])
get_or-set [] j i q h = absurd (omega arith)
get_or-set (x ∷ qs) zero zero q h = refl
get_or-set (x ∷ qs) zero (suc i) q h = ground arith
get_or-set (x ∷ qs) (suc j) zero q h = ground arith
get_or-set (x ∷ qs) (suc j) (suc i) q h = ground (arith, get_or-set qs j i q)

push_io-queue :
    (qs : List Queue) (j i : ℕ) (req_ex : RequestEx) (rest : List RequestEx)
    → j < length qs
    → get_or (set qs j (get_or qs j [] ++ some req_ex ∷ [])) i [] ++ map some rest
      ≡ get_or qs i [] ++ map some (if j == i then req_ex ∷ rest else rest)
push_io-queue qs j i req_ex rest h = elim (Bool-cases (j == i)) [
  | inl same ↦
      let at : j ≡ i = ground arith in
      rw (get_or-set qs j i (get_or qs j [] ++ some req_ex ∷ []) h, same)
        (rw at (append_assoc _ (some req_ex ∷ []) (map some rest)))
  | inr other ↦ rw (get_or-set qs j i (get_or qs j [] ++ some req_ex ∷ []) h, other) refl
]

length-push_command :
    (aio : Aio) (req_ex : RequestEx) (c : Command)
    → length (push_command aio req_ex c).io_queues ≡ length aio.io_queues
unfolding push_command push_io push_pio
length-push_command aio req_ex c = elim (Bool-cases (is_sequential c)) [
  | inl sequential ↦ rw sequential (length-set aio.io_queues _ _)
  | inr parallel ↦ rw parallel refl
]

push_command-state :
    (aio : Aio) (req_ex : RequestEx) (c : Command) → (push_command aio req_ex c).state ≡ aio.state
unfolding push_command push_io push_pio
push_command-state aio req_ex c = elim (Bool-cases (is_sequential c)) [
  | inl sequential ↦ rw sequential refl
  | inr parallel ↦ rw parallel refl
]

push_command-queue :
    (aio : Aio) (i : ℕ) (req_ex : RequestEx) (c : Command) (rest : List RequestEx)
    → 0 < length aio.io_queues
    → get_or (push_command aio req_ex c).io_queues i [] ++ map some rest
      ≡ get_or aio.io_queues i []
        ++ map some
            (if is_sequential c && c.fd % length aio.io_queues == i then req_ex ∷ rest else rest)
unfolding push_command push_io push_pio
push_command-queue aio i req_ex c rest pos = elim (Bool-cases (is_sequential c)) [
  | inl sequential ↦
      rw sequential
        (push_io-queue aio.io_queues (c.fd % length aio.io_queues) i req_ex rest (mod-lt c.fd pos))
  | inr parallel ↦ rw parallel refl
]

-- The state, and the number of queues, after a loop of `Submit`.
submit_loop-keeps :
    (request k : ℕ) (cmds : List Command) (aio : Aio)
    → (length (submit_loop request k cmds aio).io_queues ≡ length aio.io_queues)
      × ((submit_loop request k cmds aio).state ≡ aio.state)
unfolding submit_loop
submit_loop-keeps request k [] aio = (refl, refl)
submit_loop-keeps request k (c ∷ cmds) aio =
    let req_ex : RequestEx = record { request = request; cmd_idx = k } in
    let rest = submit_loop-keeps request (suc k) cmds (push_command aio req_ex c) in
    (rest.0 ∙ length-push_command aio req_ex c, rest.1 ∙ push_command-state aio req_ex c)

submit_loop-queue :
    (request k i : ℕ) (cmds : List Command) (aio : Aio)
    → 0 < length aio.io_queues
    → get_or (submit_loop request k cmds aio).io_queues i []
      ≡ get_or aio.io_queues i [] ++ map some (for_thread (length aio.io_queues) i request k cmds)
unfolding submit_loop
submit_loop-queue request k i [] aio pos = sym (append-nil _)
submit_loop-queue request k i (c ∷ cmds) aio pos =
    submit_loop-queue request (suc k) i cmds (push_command aio req_ex c) (omega (arith, same))
    ∙ rw same (
        push_command-queue aio i req_ex c (for_thread (length aio.io_queues) i request (suc k) cmds)
          pos)
  where
    req_ex : RequestEx
    req_ex = record { request = request; cmd_idx = k }

    same : length (push_command aio req_ex c).io_queues ≡ length aio.io_queues
    same = length-push_command aio req_ex c

submit-started :
    (aio : Aio) (request : ℕ) (cmds : List Command)
    → aio.state ≡ started
    → ((submit aio request cmds).0.io_queues ≡ (submit_loop request 0 cmds aio).io_queues)
      × ((submit aio request cmds).0.state ≡ started)
unfolding submit
submit-started aio request cmds on =
    rw (ap is_started on) (refl, (submit_loop-keeps request 0 cmds aio).1 ∙ on)

map-append : {A B : Type 0} (f : A → B) (xs ys : List A) → map f (xs ++ ys) ≡ map f xs ++ map f ys
map-append f [] ys = refl
map-append f (x ∷ xs) ys = ap (◌∷◌ (f x)) (map-append f xs ys)

submit_all-queue :
    (i : ℕ) (rs : List (ℕ × List Command)) (aio : Aio)
    → aio.state ≡ started
    → 0 < length aio.io_queues
    → (get_or (submit_all aio rs).io_queues i []
        ≡ get_or aio.io_queues i [] ++ map some (all_for_thread (length aio.io_queues) i rs))
      × (length (submit_all aio rs).io_queues ≡ length aio.io_queues)
submit_all-queue i [] aio on pos = (sym (append-nil _), refl)
submit_all-queue i (r ∷ rs) aio on pos =
    let (queues, on') = submit-started aio r.0 r.1 on in
    let same : length (submit aio r.0 r.1).0.io_queues ≡ length aio.io_queues =
      ap length queues ∙ (submit_loop-keeps r.0 0 r.1 aio).0 in
    let (later, kept) = submit_all-queue i rs (submit aio r.0 r.1).0 on' (omega (arith, same)) in
    let one = submit_loop-queue r.0 0 i r.1 aio pos in
    (
      later ∙ rw (same, queues, one, map-append) (append_assoc (get_or aio.io_queues i []) _ _),
      kept ∙ same,
    )

get_or-map :
    (f : Queue → Queue) (qs : List Queue) (i : ℕ)
    → i < length qs
    → get_or (map f qs) i [] ≡ f (get_or qs i [])
get_or-map f [] i h = absurd (omega arith)
get_or-map f (q ∷ qs) zero h = refl
get_or-map f (q ∷ qs) (suc i) h = get_or-map f qs i (omega arith)

get_or-replicate : (n i : ℕ) → get_or (replicate {A = Queue} n []) i [] ≡ []
get_or-replicate zero i = refl
get_or-replicate (suc n) zero = refl
get_or-replicate (suc n) (suc i) = get_or-replicate n i

thread_loop-map :
    (rs : List RequestEx) (q : Queue) → thread_loop (map some rs ++ none ∷ q) ≡ (rs, some q)
unfolding thread_loop
thread_loop-map [] q = refl
thread_loop-map (r ∷ rs) q = rw (thread_loop-map rs q) refl

start-queues :
    (cpus : ℕ) (aio : Aio) (io pio : ℤ)
    → aio.state ≡ stopped
    → ((start cpus aio io pio).0.io_queues ≡ replicate (thread_num cpus io) [])
      × ((start cpus aio io pio).0.state ≡ started)
unfolding start
start-queues cpus aio io pio off = rw (ap is_stopped off) (refl, refl)

-- After `Start`, any requests submitted one after the other, and the empty requests that `Stop`
-- pushes, each thread for the plain commands processes exactly the commands whose file it has, in the
-- order in which they were submitted, and ends with its queue empty.
pub thread_loop-submit :
    (cpus : ℕ) (aio : Aio) (io pio : ℤ) (rs : List (ℕ × List Command)) (i : ℕ)
    → aio.state ≡ stopped
    → i < thread_num cpus io
    → thread_loop (get_or (stop_pushes (submit_all (start cpus aio io pio).0 rs)).io_queues i [])
      ≡ (all_for_thread (thread_num cpus io) i rs, some [])
unfolding stop_pushes
thread_loop-submit cpus aio io pio rs i off h =
    rw (get_or-map close (submit_all begun rs).io_queues i (omega (arith, after.1, size))) (
      rw (after.0, size, (start-queues cpus aio io pio off).0)
        (rw (get_or-replicate (thread_num cpus io) i)
          (thread_loop-map (all_for_thread (thread_num cpus io) i rs) [])))
  where
    close : Queue → Queue
    close q = q ++ none ∷ []

    begun : Aio
    begun = (start cpus aio io pio).0

    size : length begun.io_queues ≡ thread_num cpus io
    size = ap length (start-queues cpus aio io pio off).0 ∙ length-replicate (thread_num cpus io) []

    after :
        (get_or (submit_all begun rs).io_queues i []
          ≡ get_or begun.io_queues i [] ++ map some (all_for_thread (length begun.io_queues) i rs))
        × (length (submit_all begun rs).io_queues ≡ length begun.io_queues)
    after = submit_all-queue i rs begun (start-queues cpus aio io pio off).1 (omega (arith, size))
