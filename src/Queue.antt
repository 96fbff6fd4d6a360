-- ===== src/Queue.antt =====
-- include/xfutil/queue.h: the class `BlockingQueue`. Each method runs under the mutex from one wait to
-- the next, so a method is a function of the states that it finds when it holds the mutex: the first,
-- and one for each time that a wait returns. What other threads do meanwhile is in those states.
pub mod Calls
pub mod Effects
pub mod Runs
use xfutil.Base.{
  ℕ, ◌+◌, ◌*◌, Bool, true, false, leb, if◌then◌else◌, List, [], ◌∷◌, ◌++◌, Option, none, some,
  length,
}

pub record Queue {ℓ} (T : Type ℓ) : Type ℓ where
  pub items : List T
  pub capacity : ℕ

-- What a timed wait returns with: whether it timed out, and the queue that the thread then finds.
pub record WakeUp {ℓ} (T : Type ℓ) : Type ℓ where
  pub timed_out : Bool
  pub found : Queue T

module _ {ℓ} {T : Type ℓ} where
  -- The constructor.
  unfoldable pub new : ℕ → Queue T
  new capacity = record { items = []; capacity = capacity }

  unfoldable pub set_capacity : Queue T → ℕ → Queue T
  set_capacity q capacity = record q { capacity = capacity }

  unfoldable pub size : Queue T → ℕ
  size q = length q.items

  -- `m_queue.size() >= m_capacity`
  abbrev pub is_full : Queue T → Bool
  is_full q = leb q.capacity (length q.items)

  abbrev pub push_back : Queue T → T → Queue T
  push_back q v = record q { items = q.items ++ v ∷ [] }

  -- `Push(v)`: `none` while the thread still waits.
  unfoldable pub push : Queue T → List (Queue T) → T → Option (Queue T)
  push q [] v = if is_full q then none else some (push_back q v)
  push q (q' ∷ later) v =
      let rest = push q' later v in if is_full q then rest else some (push_back q v)

  unfoldable pub push_front : Queue T → List (Queue T) → T → Option (Queue T)
  push_front q [] v = if is_full q then none else some (record q { items = v ∷ q.items })
  push_front q (q' ∷ later) v =
      let rest = push_front q' later v in
      if is_full q then rest else some (record q { items = v ∷ q.items })

  -- `Push(v, timeout_ms)`
  unfoldable pub push_timed : Queue T → List (WakeUp T) → T → Option (Queue T × Bool)
  push_timed q [] v = if is_full q then none else some (push_back q v, true)
  push_timed q (w ∷ later) v =
      let retry = push_timed w.found later v in
      let wait : Option (Queue T × Bool) = if w.timed_out then some (w.found, false) else retry in
      if is_full q then wait else some (push_back q v, true)

  unfoldable pub try_push : Queue T → T → Queue T × Bool
  try_push q v = if is_full q then (q, false) else (push_back q v, true)

  unfoldable pub try_pop : Queue T → Queue T × Option T
  try_pop q = elim q.items [ [] ↦ (q, none) | v ∷ rest ↦ (record q { items = rest }, some v) ]

  -- `Pop(v)`: `none` while the thread still waits.
  unfoldable pub pop : Queue T → List (Queue T) → Option (Queue T × T)
  pop q [] = elim q.items [ [] ↦ none | v ∷ rest ↦ some (record q { items = rest }, v) ]
  pop q (q' ∷ later) =
      let wait = pop q' later in
      elim q.items [ [] ↦ wait | v ∷ rest ↦ some (record q { items = rest }, v) ]

  -- `Pop(v, timeout_ms)`
  unfoldable pub pop_timed : Queue T → List (WakeUp T) → Option (Queue T × Option T)
  pop_timed q [] = elim q.items [ [] ↦ none | v ∷ rest ↦ some (record q { items = rest }, some v) ]
  pop_timed q (w ∷ later) =
      let retry = pop_timed w.found later in
      let wait : Option (Queue T × Option T) =
        if w.timed_out then some (w.found, none) else retry in
      elim q.items [ [] ↦ wait | v ∷ rest ↦ some (record q { items = rest }, some v) ]
