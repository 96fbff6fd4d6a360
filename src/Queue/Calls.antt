-- ===== src/Queue/Calls.antt =====
-- include/xfutil/queue.h: the calls of `BlockingQueue` that completed, and what each does to the queue.
use xfutil.Base.{
  ◌≡◌, ◌⊎◌, inl, inr, refl, Bool, Bool-cases, true, false, if◌then◌else◌, List, [], ◌∷◌, Option,
  none, some,
}
use xfutil.Queue.{Queue, WakeUp, is_full, push, push_timed, try_push, try_pop, pop, pop_timed}

none-ne-some {ℓ} : {A : Type ℓ} {a : A} → none ≡ some a → ⊥
none-ne-some e = cc

pub List-cases {ℓ} :
    {A : Type ℓ} (xs : List A) → (xs ≡ []) ⊎ ((x : A) × (rest : List A) × (xs ≡ x ∷ rest))
List-cases [] = inl refl
List-cases (x ∷ rest) = inr (x, rest, refl)

-- A call took the mutex at these states, the later ones when a wait returned, and had to wait at each
-- but the one where it completed, `found`.
pub data Waited {ℓ} {T : Type ℓ} (blocked : Queue T → Bool)
    : Queue T → List (Queue T) → Queue T → Type ℓ where
  now : {q : Queue T} {later : List (Queue T)} → blocked q ≡ false → Waited blocked q later q
  wait :
      {q q' found : Queue T} {later : List (Queue T)}
      → blocked q ≡ true
      → Waited blocked q' later found
      → Waited blocked q (q' ∷ later) found

-- The same for a timed wait: it also completes where the wait timed out.
pub data Timed {ℓ} {T : Type ℓ} (blocked : Queue T → Bool)
    : Queue T → List (WakeUp T) → Queue T → Type ℓ where
  now : {q : Queue T} {later : List (WakeUp T)} → blocked q ≡ false → Timed blocked q later q
  out :
      {q : Queue T} {w : WakeUp T} {later : List (WakeUp T)}
      → blocked q ≡ true
      → w.timed_out ≡ true
      → Timed blocked q (w ∷ later) w.found
  wait :
      {q found : Queue T} {w : WakeUp T} {later : List (WakeUp T)}
      → blocked q ≡ true
      → w.timed_out ≡ false
      → Timed blocked w.found later found
      → Timed blocked q (w ∷ later) found

abbrev pub is_empty {ℓ} : {T : Type ℓ} → Queue T → Bool
is_empty q = elim q.items [ [] ↦ true | v ∷ rest ↦ false ]

abbrev pub to_list {ℓ} : {T : Type ℓ} → Option T → List T
to_list none = []
to_list (some v) = v ∷ []

module _ {ℓ} {T : Type ℓ} where
  -- A completed call of a method, on the queue that it found when it last took the mutex, with the
  -- values that went in and that came out.
  pub data Step (q : Queue T) : Queue T → List T → List T → Type ℓ where
    pushed :
        {first q' : Queue T} {later : List (Queue T)} {v : T}
        → Waited is_full first later q
        → push first later v ≡ some q'
        → Step q q' (v ∷ []) []
    pushed_timed :
        {first q' : Queue T} {later : List (WakeUp T)} (v : T) {ok : Bool}
        → Timed is_full first later q
        → push_timed first later v ≡ some (q', ok)
        → Step q q' (if ok then v ∷ [] else []) []
    tried_push :
        {q' : Queue T} (v : T) {ok : Bool}
        → try_push q v ≡ (q', ok)
        → Step q q' (if ok then v ∷ [] else []) []
    popped :
        {first q' : Queue T} {later : List (Queue T)} {v : T}
        → Waited is_empty first later q
        → pop first later ≡ some (q', v)
        → Step q q' [] (v ∷ [])
    popped_timed :
        {first q' : Queue T} {later : List (WakeUp T)} {v : Option T}
        → Timed is_empty first later q
        → pop_timed first later ≡ some (q', v)
        → Step q q' [] (to_list v)
    tried_pop : {q' : Queue T} {v : Option T} → try_pop q ≡ (q', v) → Step q q' [] (to_list v)

  -- A `Push` that returns had to wait at each state that it found but one, where it completed.
  pub push-Waited :
      (first : Queue T) (later : List (Queue T)) (v : T) {r : Queue T}
      → push first later v ≡ some r
      → (q : Queue T) × Waited is_full first later q
  unfolding push
  push-Waited first [] v e = elim (Bool-cases (is_full first)) [
    | inl full ↦ absurd (none-ne-some (rw full at e))
    | inr free ↦ (first, now free)
  ]
  push-Waited first (next ∷ later) v e = elim (Bool-cases (is_full first)) [
    | inl full ↦ let (q, w) = push-Waited next later v (rw full at e) in (q, wait full w)
    | inr free ↦ (first, now free)
  ]

  -- The same for a `Pop`.
  pub pop-Waited :
      (first : Queue T) (later : List (Queue T)) {r : Queue T} {v : T}
      → pop first later ≡ some (r, v)
      → (q : Queue T) × Waited is_empty first later q
  unfolding pop
  pop-Waited first [] e = elim (List-cases first.items) [
    | inl empty ↦ absurd (none-ne-some (rw empty at e))
    | inr (v, rest, h) ↦ (first, now (rw h refl))
  ]
  pop-Waited first (next ∷ later) e = elim (List-cases first.items) [
    | inl empty ↦ let (q, w) = pop-Waited next later (rw empty at e) in (q, wait (rw empty refl) w)
    | inr (v, rest, h) ↦ (first, now (rw h refl))
  ]
