-- ===== src/Tests/FileWatcher.antt =====
-- src/file_watcher.cpp at concrete inputs.
use xfutil.Base.{
  ◌+◌, ◌≡◌, refl, arith, true, false, List, [], ◌∷◌, ◌++◌, length, map, replicate, none, some,
}
use xfutil.Memory.{Mem, write}
use xfutil.Memory.Laws.{write-Holds}
use xfutil.FileWatcher.{FileWatcher, failed, timeout, eintr, eagain, error, add, handle_event, read}
use xfutil.Path.{combine}
use xfutil.FileWatcher.Add.{add-fails}
use xfutil.FileWatcher.Events.{Event, IsEvent, layouts, calls}
use xfutil.FileWatcher.Handle.{handle_event-calls}
use xfutil.FileWatcher.Read.{
  Batch, IsBatch, got, all_calls, Round, IsRound, reads, waits, round_calls, timed_out, read-rounds,
}

-- The descriptor 3 watches "d".
abbrev watcher : FileWatcher
watcher = record { ifd = some 7; paths = (3, b'd' ∷ []) ∷ [] }

-- The file "x" was created there, and something happened elsewhere.
abbrev created : Event
created = record { wd = 3; mask = 256; cookie = 0; name = b'x' ∷ []; zeros = 2 }

abbrev elsewhere : Event
elsewhere = record { wd = 5; mask = 2; cookie = 0; name = b'y' ∷ []; zeros = 6 }

abbrev events : List Event
events = elsewhere ∷ created ∷ []

abbrev blank : Mem
blank a = 0

abbrev mem : Mem
mem = write blank 1000 (layouts events)

created-IsEvent : IsEvent created
created-IsEvent = record {
  wd = omega arith;
  mask = omega arith;
  cookie = omega arith;
  len = omega arith;
  name = (λ e. omega (arith, e), tt);
}

elsewhere-IsEvent : IsEvent elsewhere
elsewhere-IsEvent = record {
  wd = omega arith;
  mask = omega arith;
  cookie = omega arith;
  len = omega arith;
  name = (λ e. omega (arith, e), tt);
}

abbrev both : Batch
both = record { mem = mem; buf = 1000; events = events }

both-IsBatch : IsBatch both
both-IsBatch = record {
  events = (elsewhere-IsEvent, (created-IsEvent, tt));
  held = write-Holds (layouts events) blank 1000;
}

add-fails_example : add true (λ fd. none) watcher (b'e' ∷ []) ≡ (watcher, false)
add-fails_example = add-fails true (λ fd. none) watcher (b'e' ∷ []) refl

handle_event-calls_example :
    handle_event 60 watcher mem 1000 (1000 + length (layouts events)) ≡ calls watcher events
handle_event-calls_example =
    handle_event-calls 60 watcher mem 1000 events (elsewhere-IsEvent, (created-IsEvent, tt))
      (write-Holds (layouts events) blank 1000) (omega arith)

the_call : calls watcher events ≡ (b'd' ∷ b'/' ∷ b'x' ∷ [], 256) ∷ []
unfolding combine
the_call = refl

-- A read is interrupted, the next one gives two events, and `poll` reports more.
abbrev round : Round
round = record { batches = none ∷ some both ∷ []; interrupts = 1; revents = 1 }

round-IsRound : IsRound round
round-IsRound = record {
  batches = (tt, (both-IsBatch, tt));
  some_events = omega arith;
  no_error = refl;
}

read-rounds_example :
    read watcher
      (reads (round ∷ []) (map got (some both ∷ []) ++ error eagain ∷ []))
      (waits (round ∷ []) (replicate 2 (failed eintr) ++ timeout ∷ []))
    ≡ some (some 0, round_calls watcher (round ∷ []) ++ all_calls watcher (some both ∷ []))
read-rounds_example =
    read-rounds watcher (round ∷ []) (some both ∷ []) 2 timeout (some 0) [] [] (round-IsRound, tt)
      (both-IsBatch, tt) timed_out
