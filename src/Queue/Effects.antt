-- ===== src/Queue/Effects.antt =====
-- include/xfutil/queue.h: what each completed call of `BlockingQueue` does to the queue.
use xfutil.Base.{
  ◌≤◌, ◌≡◌, inl, inr, refl, ap, subst, Bool, Bool-cases, ◌∙◌, arith, true, false, if◌then◌else◌,
  List, [], ◌∷◌, ◌++◌, Option, none, some, length, length-append, append-nil,
}
use mathlib.Core.Option.{some-injective}
use xfutil.Queue.{
  Queue, WakeUp, is_full, push_back, push, push_timed, try_push, try_pop, pop, pop_timed,
}
use xfutil.Queue.Calls.{
  Waited, now, wait, Timed, out, is_empty, to_list, Step, pushed, pushed_timed, tried_push, popped,
  popped_timed, tried_pop,
}

module _ {ℓ} {T : Type ℓ} where
  -- What every call does.
  pub record Effect (q q' : Queue T) (ins outs : List T) : Type ℓ where
    pub fifo : q.items ++ ins ≡ outs ++ q'.items
    pub same : q'.capacity ≡ q.capacity
    pub fits : length q.items ≤ q.capacity → length q'.items ≤ q'.capacity

  idle-Effect : (q : Queue T) → Effect q q [] []
  idle-Effect q = record { fifo = append-nil _; same = refl; fits = λ b. b }

  in-Effect : (q : Queue T) (v : T) → is_full q ≡ false → Effect q (push_back q v) (v ∷ []) []
  in-Effect q v free = record {
    fifo = refl;
    same = refl;
    fits = λ b. ground (arith, length-append {ℓ} q.items (v ∷ []));
  }

  out-Effect :
      (q : Queue T) (v : T) (rest : List T)
      → q.items ≡ v ∷ rest
      → Effect q (record q { items = rest }) [] (v ∷ [])
  out-Effect q v rest e = record {
    fifo = append-nil _ ∙ e;
    same = refl;
    fits = λ b. omega (arith, ap length e);
  }

  in_result :
      {q r q' : Queue T} (v : T) {b ok : Bool}
      → Effect q r (if b then v ∷ [] else []) []
      → ◌≡◌ {A = Option (Queue T × Bool)} (some (r, b)) (some (q', ok))
      → Effect q q' (if ok then v ∷ [] else []) []
  in_result {q} v f e =
      subst (λ (t : Queue T × Bool). Effect q t.0 (if t.1 then v ∷ [] else []) [])
        (some-injective _ _ e) f

  out_result :
      {q r q' : Queue T} {o v : Option T}
      → Effect q r [] (to_list o)
      → ◌≡◌ {A = Option (Queue T × Option T)} (some (r, o)) (some (q', v))
      → Effect q q' [] (to_list v)
  out_result {q} f e =
      subst (λ (t : Queue T × Option T). Effect q t.0 [] (to_list t.1)) (some-injective _ _ e) f

  push-Effect :
      {q first q' : Queue T} {later : List (Queue T)} {v : T}
      → Waited is_full first later q
      → push first later v ≡ some q'
      → Effect q q' (v ∷ []) []
  unfolding push
  push-Effect {q} {later = []} {v = v} (now free) e =
      subst (λ t. Effect q t (v ∷ []) []) (some-injective _ _ (rw free at e)) (in-Effect q v free)
  push-Effect {q} {later = _ ∷ _} {v = v} (now free) e =
      subst (λ t. Effect q t (v ∷ []) []) (some-injective _ _ (rw free at e)) (in-Effect q v free)
  push-Effect (wait full w) e = push-Effect w (rw full at e)

  push_timed-Effect :
      {q first q' : Queue T} {later : List (WakeUp T)} (v : T) {ok : Bool}
      → Timed is_full first later q
      → push_timed first later v ≡ some (q', ok)
      → Effect q q' (if ok then v ∷ [] else []) []
  unfolding push_timed
  push_timed-Effect {q} {later = []} v (now free) e =
      in_result v {b = true} (in-Effect q v free) (rw free at e)
  push_timed-Effect {q} {later = _ ∷ _} v (now free) e =
      in_result v {b = true} (in-Effect q v free) (rw free at e)
  push_timed-Effect {q} v (out full late) e =
      in_result v {b = false} (idle-Effect q) (rw (full, late) at e)
  push_timed-Effect v (wait full soon w) e = push_timed-Effect v w (rw (full, soon) at e)

  try_push-Effect :
      {q q' : Queue T} (v : T) {ok : Bool}
      → try_push q v ≡ (q', ok)
      → Effect q q' (if ok then v ∷ [] else []) []
  unfolding try_push
  try_push-Effect {q} v e = elim (Bool-cases (is_full q)) [
    | inl full ↦ in_result v {b = false} (idle-Effect q) (ap some (rw full at e))
    | inr free ↦ in_result v {b = true} (in-Effect q v free) (ap some (rw free at e))
  ]

  is_empty-nil : (xs : List T) → elim xs [ [] ↦ true | v ∷ rest ↦ false ] ≡ true → xs ≡ []
  is_empty-nil [] e = refl
  is_empty-nil (x ∷ xs) e = absurd (ground arith)

  some_value :
      (xs : List T)
      → elim xs [ [] ↦ true | v ∷ rest ↦ false ] ≡ false
      → (v : T) × (rest : List T) × (xs ≡ v ∷ rest)
  some_value [] e = absurd (ground arith)
  some_value (x ∷ xs) e = (x, xs, refl)

  pop-Effect :
      {q first q' : Queue T} {later : List (Queue T)} {v : T}
      → Waited is_empty first later q
      → pop first later ≡ some (q', v)
      → Effect q q' [] (v ∷ [])
  unfolding pop
  pop-Effect {q} {later = []} (now holds) e =
      let (v, rest, h) = some_value q.items holds in
      subst (λ (t : Queue T × T). Effect q t.0 [] (t.1 ∷ [])) (some-injective _ _ (rw h at e))
        (out-Effect q v rest h)
  pop-Effect {q} {later = _ ∷ _} (now holds) e =
      let (v, rest, h) = some_value q.items holds in
      subst (λ (t : Queue T × T). Effect q t.0 [] (t.1 ∷ [])) (some-injective _ _ (rw h at e))
        (out-Effect q v rest h)
  pop-Effect (wait {q = q} empty w) e = pop-Effect w (rw (is_empty-nil q.items empty) at e)

  pop_timed-Effect :
      {q first q' : Queue T} {later : List (WakeUp T)} {v : Option T}
      → Timed is_empty first later q
      → pop_timed first later ≡ some (q', v)
      → Effect q q' [] (to_list v)
  unfolding pop_timed
  pop_timed-Effect {q} {later = []} (now holds) e =
      let (v, rest, h) = some_value q.items holds in
      out_result {o = some v} (out-Effect q v rest h) (rw h at e)
  pop_timed-Effect {q} {later = _ ∷ _} (now holds) e =
      let (v, rest, h) = some_value q.items holds in
      out_result {o = some v} (out-Effect q v rest h) (rw h at e)
  pop_timed-Effect {q = found} (out {q = q} empty late) e =
      out_result {o = none} (idle-Effect found) (rw (is_empty-nil q.items empty, late) at e)
  pop_timed-Effect (wait {q = q} empty soon w) e =
      pop_timed-Effect w (rw (is_empty-nil q.items empty, soon) at e)

  -- The same over the items, which `try_pop` looks at.
  try_pop_some :
      (q : Queue T) (xs : List T) {q' : Queue T} {v : Option T}
      → q.items ≡ xs
      → ◌≡◌ {A = Queue T × Option T}
          (elim xs [ [] ↦ (q, none) | x ∷ rest ↦ (record q { items = rest }, some x) ])
          (q', v)
      → Effect q q' [] (to_list v)
  try_pop_some q [] h e = out_result {o = none} (idle-Effect q) (ap some e)
  try_pop_some q (x ∷ rest) h e = out_result {o = some x} (out-Effect q x rest h) (ap some e)

  try_pop-Effect :
      {q q' : Queue T} {v : Option T} → try_pop q ≡ (q', v) → Effect q q' [] (to_list v)
  unfolding try_pop
  try_pop-Effect {q} e = try_pop_some q q.items refl e

  pub Step-Effect : {q q' : Queue T} {ins outs : List T} → Step q q' ins outs → Effect q q' ins outs
  Step-Effect (pushed w e) = push-Effect w e
  Step-Effect (pushed_timed v w e) = push_timed-Effect v w e
  Step-Effect (tried_push v e) = try_push-Effect v e
  Step-Effect (popped w e) = pop-Effect w e
  Step-Effect (popped_timed w e) = pop_timed-Effect w e
  Step-Effect (tried_pop e) = try_pop-Effect e
