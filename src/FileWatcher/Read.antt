-- ===== src/FileWatcher/Read.antt =====
-- src/file_watcher.cpp: `Read` over the batches of events that the system gives.
use xfutil.Base.{
  ℕ, zero, suc, ◌<◌, ◌≡◌, ◌≢◌, bit_and, ◌==◌, true, false, if◌then◌else◌, refl, ap, sym, ◌∙◌, arith,
  Bool-cases, inl, inr, ltb, List, [], ◌∷◌, ◌++◌, append-nil, append_assoc, All, length, map,
  replicate, Option, none, some,
}
use xfutil.Memory.{Mem, Holds}
use xfutil.FileWatcher.{
  FileWatcher, Poll, ready, timeout, failed, no_events, eintr, eagain, select, Got, bytes, error,
  before, read,
}
use xfutil.FileWatcher.Events.{Event, IsEvent, layouts, calls}
use xfutil.FileWatcher.Handle.{handle_event-calls}

-- What one `read` gives: some events, and where they lie.
pub record Batch : Type 0 where
  pub mem : Mem
  pub buf : ℕ
  pub events : List Event

pub record IsBatch (b : Batch) : Type 0 where
  pub events : All IsEvent b.events
  pub held : Holds b.mem b.buf (layouts b.events)

-- A `read` gives a batch, or is interrupted.
abbrev pub IsGiven : Option Batch → Type 0
IsGiven none = Unit
IsGiven (some b) = IsBatch b

abbrev pub got : Option Batch → Got
got none = error eintr
got (some b) = bytes b.mem b.buf (length (layouts b.events))

abbrev pub all_calls : FileWatcher → List (Option Batch) → List (List ℕ × ℕ)
all_calls w [] = []
all_calls w (none ∷ batches) = all_calls w batches
all_calls w (some b ∷ batches) = calls w b.events ++ all_calls w batches

-- A round of the loop: what `read` gives until it has nothing more, how often `poll` is interrupted
-- then, and the events with which it returns.
pub record Round : Type 0 where
  pub batches : List (Option Batch)
  pub interrupts : ℕ
  pub revents : ℕ

-- `poll` reports something, and not `POLLERR`.
pub record IsRound (r : Round) : Type 0 where
  pub batches : All IsGiven r.batches
  pub some_events : 0 < r.revents
  pub no_error : bit_and r.revents 8 ≡ 0

abbrev pub reads : List Round → List Got → List Got
reads [] gots = gots
reads (r ∷ rounds) gots = map got r.batches ++ error eagain ∷ reads rounds gots

abbrev pub waits : List Round → List Poll → List Poll
waits [] polls = polls
waits (r ∷ rounds) polls =
    replicate r.interrupts (failed eintr) ++ ready r.revents ∷ waits rounds polls

abbrev pub round_calls : FileWatcher → List Round → List (List ℕ × ℕ)
round_calls w [] = []
round_calls w (r ∷ rounds) = all_calls w r.batches ++ round_calls w rounds

-- What makes `Read` return: `poll` times out, reports `POLLERR`, or fails but for an interruption.
pub data End : Poll → Option ℕ → Type 0 where
  timed_out : End timeout (some 0)
  poll_error : (revents : ℕ) → bit_and revents 8 ≢ 0 → End (ready revents) none
  poll_failed : (errno : ℕ) → errno ≢ 4 → End (failed errno) none

before-before :
    (xs ys : List (List ℕ × ℕ)) (r : Option (Option ℕ × List (List ℕ × ℕ)))
    → before xs (before ys r) ≡ before (xs ++ ys) r
before-before xs ys none = refl
before-before xs ys (some (ret, more)) = ap (λ cs. some (ret, cs)) (sym (append_assoc xs ys more))

before-nil : (r : Option (Option ℕ × List (List ℕ × ℕ))) → before [] r ≡ r
before-nil none = refl
before-nil (some (ret, more)) = refl

calls-nil : (w : FileWatcher) (es : List Event) → length (layouts es) ≡ 0 → calls w es ≡ []
calls-nil w [] h = refl
calls-nil w (e ∷ es) h = absurd (omega (arith, h))

-- One batch: its calls, and then what the next `read` leads to.
read-batch :
    (w : FileWatcher) (b : Batch) (gots : List Got) (polls : List Poll)
    → IsBatch b
    → read w (got (some b) ∷ gots) polls ≡ before (calls w b.events) (read w gots polls)
unfolding read
read-batch w b gots polls v = elim (Bool-cases (ltb 0 (length (layouts b.events)))) [
  | inl some_bytes ↦
      rw
        (
          some_bytes,
          handle_event-calls (length (layouts b.events)) w b.mem b.buf b.events v.events v.held
              (omega arith),
        )
        refl
  | inr no_bytes ↦
      rw (no_bytes, calls-nil w b.events (ground arith)) (sym (before-nil (read w gots polls)))
]

read-eintr :
    (w : FileWatcher) (gots : List Got) (polls : List Poll)
    → read w (error eintr ∷ gots) polls ≡ read w gots polls
unfolding read
read-eintr w gots polls = refl

read-batches :
    (w : FileWatcher) (batches : List (Option Batch)) (gots : List Got) (polls : List Poll)
    → All IsGiven batches
    → read w (map got batches ++ gots) polls ≡ before (all_calls w batches) (read w gots polls)
read-batches w [] gots polls v = sym (before-nil (read w gots polls))
read-batches w (none ∷ batches) gots polls (v, vs) =
    read-eintr w (map got batches ++ gots) polls ∙ read-batches w batches gots polls vs
read-batches w (some b ∷ batches) gots polls (v, vs) =
    read-batch w b (map got batches ++ gots) polls v
    ∙ ap (before (calls w b.events)) (read-batches w batches gots polls vs)
    ∙ before-before (calls w b.events) (all_calls w batches) (read w gots polls)

select-interrupted :
    (k : ℕ) (polls : List Poll) → select (replicate k (failed eintr) ++ polls) ≡ select polls
unfolding select
select-interrupted zero polls = refl
select-interrupted (suc k) polls = select-interrupted k polls

select-End :
    (p : Poll) (ret : Option ℕ) (polls : List Poll)
    → End p ret
    → (select (p ∷ polls) ≡ some (ret, polls)) × (no_events ret ≡ true)
unfolding select
select-End _ _ polls timed_out = (refl, refl)
select-End _ _ polls (poll_error revents bad) =
    let set : (bit_and revents 8 == 0) ≡ false = ground arith in rw set (refl, refl)
select-End _ _ polls (poll_failed errno other) =
    let not_eintr : (errno == eintr) ≡ false = ground arith in rw not_eintr (refl, refl)

read-eagain :
    (w : FileWatcher) (gots : List Got) (polls rest : List Poll) (ret : Option ℕ)
    → select polls ≡ some (ret, rest)
    → read w (error eagain ∷ gots) polls
      ≡ (if no_events ret then some (ret, []) else read w gots rest)
unfolding read
read-eagain w gots polls rest ret at = rw at refl

-- Events that `poll` reports lead back to `read`.
read-ready :
    (w : FileWatcher) (gots : List Got) (polls : List Poll) (k revents : ℕ)
    → 0 < revents
    → bit_and revents 8 ≡ 0
    → read w (error eagain ∷ gots) (replicate k (failed eintr) ++ ready revents ∷ polls)
      ≡ read w gots polls
unfolding select
read-ready w gots polls k revents some_events no_error =
    let clear : (bit_and revents 8 == 0) ≡ true = ground arith in
    let events : (revents == 0) ≡ false = ground arith in
    read-eagain w gots _ polls (some revents)
      (select-interrupted k (ready revents ∷ polls) ∙ rw clear refl)
    ∙ rw events refl

read-round :
    (w : FileWatcher) (r : Round) (gots : List Got) (polls : List Poll)
    → IsRound r
    → read w
        (map got r.batches ++ error eagain ∷ gots)
        (replicate r.interrupts (failed eintr) ++ ready r.revents ∷ polls)
      ≡ before (all_calls w r.batches) (read w gots polls)
read-round w r gots polls v =
    read-batches w r.batches (error eagain ∷ gots) _ v.batches
    ∙ ap (before (all_calls w r.batches))
        (read-ready w gots polls r.interrupts r.revents v.some_events v.no_error)

read-reads :
    (w : FileWatcher) (rounds : List Round) (gots : List Got) (polls : List Poll)
    → All IsRound rounds
    → read w (reads rounds gots) (waits rounds polls)
      ≡ before (round_calls w rounds) (read w gots polls)
read-reads w [] gots polls v = sym (before-nil (read w gots polls))
read-reads w (r ∷ rounds) gots polls (v, vs) =
    read-round w r (reads rounds gots) (waits rounds polls) v
    ∙ ap (before (all_calls w r.batches)) (read-reads w rounds gots polls vs)
    ∙ before-before (all_calls w r.batches) (round_calls w rounds) (read w gots polls)

read-End :
    (w : FileWatcher) (k : ℕ) (last : Poll) (ret : Option ℕ) (gots : List Got) (polls : List Poll)
    → End last ret
    → read w (error eagain ∷ gots) (replicate k (failed eintr) ++ last ∷ polls) ≡ some (ret, [])
read-End w k last ret gots polls end =
    let (at, none_left) = select-End last ret polls end in
    read-eagain w gots _ polls ret (select-interrupted k (last ∷ polls) ∙ at) ∙ rw none_left refl

-- Over any rounds in which `read` gives batches of events, or is interrupted, until it has none, and
-- `poll`, after any number of interruptions, reports events without `POLLERR`, `Read` goes on. Where in
-- the last round `poll` times out, reports `POLLERR` or fails, `Read` returns 0 for the timeout and -1 for
-- the others, and has made the calls of all batches of all rounds in their order. Each event has its
-- name and a zero behind it.
pub read-rounds :
    (w : FileWatcher) (rounds : List Round) (batches : List (Option Batch)) (k : ℕ) (last : Poll)
    (ret : Option ℕ) (gots : List Got) (polls : List Poll)
    → All IsRound rounds
    → All IsGiven batches
    → End last ret
    → read w
        (reads rounds (map got batches ++ error eagain ∷ gots))
        (waits rounds (replicate k (failed eintr) ++ last ∷ polls))
      ≡ some (ret, round_calls w rounds ++ all_calls w batches)
read-rounds w rounds batches k last ret gots polls v v' end =
    read-reads w rounds _ _ v
    ∙ ap (before (round_calls w rounds)) (
        read-batches w batches (error eagain ∷ gots) _ v'
        ∙ ap (before (all_calls w batches)) (read-End w k last ret gots polls end)
        ∙ ap (λ cs. some (ret, cs)) (append-nil (all_calls w batches)))
