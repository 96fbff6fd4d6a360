-- ===== src/Tests/Queue.antt =====
-- include/xfutil/queue.h at concrete inputs.
use xfutil.Base.{ℕ, ◌≤◌, ◌≡◌, refl, arith, [], ◌∷◌, ◌++◌, some, length}
use xfutil.Queue.{Queue, new, push_back, push, try_push, pop}
use xfutil.Queue.Calls.{now, wait, pushed, tried_push, popped}
use xfutil.Queue.Runs.{Run, start, then_, Run-fifo}

abbrev empty : Queue ℕ
empty = new 2

abbrev one : Queue ℕ
one = record { items = 7 ∷ []; capacity = 2 }

abbrev two : Queue ℕ
two = record { items = 7 ∷ 8 ∷ []; capacity = 2 }

abbrev left : Queue ℕ
left = record { items = 8 ∷ []; capacity = 2 }

empty-fits : length empty.items ≤ empty.capacity
unfolding new
empty-fits = omega arith

-- A push, a push that finds the queue full at first, one that is refused, and a pop.
some_calls : Run empty left (7 ∷ 8 ∷ []) (7 ∷ [])
unfolding new push try_push pop
some_calls =
    then_ {q' = two}
      (then_ {q' = two}
        (then_ {q' = one} (then_ start (pushed {first = empty} {later = []} (now refl) refl))
          (pushed {first = two} {later = one ∷ []} (wait refl (now refl)) refl))
        (tried_push 9 refl))
      (popped {first = two} {later = []} (now refl) refl)

Run-fifo_example : empty.items ++ 7 ∷ 8 ∷ [] ≡ (7 ∷ []) ++ left.items
Run-fifo_example = Run-fifo some_calls

-- The queue is full at first, and has room when the wait returns.
push_waits : push two (one ∷ []) 9 ≡ some (push_back one 9)
unfolding push
push_waits = refl

pop_waits : pop empty (two ∷ []) ≡ some (record { items = 8 ∷ []; capacity = 2 }, 7)
unfolding pop new
pop_waits = refl
