-- ===== src/Queue/Runs.antt =====
-- include/xfutil/queue.h: `BlockingQueue` under any interleaving of its methods.
use xfutil.Base.{
  ◌≤◌, ◌≡◌, refl, ap, sym, ◌∙◌, List, [], ◌∷◌, ◌++◌, length, append_assoc, append-nil,
}
use xfutil.Queue.{Queue}
use xfutil.Queue.Calls.{Step}
use xfutil.Queue.Effects.{Step-Effect}

module _ {ℓ} {T : Type ℓ} where
  -- The calls that completed one after the other, with the values that went in and came out, in order.
  pub data Run (q : Queue T) : Queue T → List T → List T → Type ℓ where
    start : Run q q [] []
    then_ :
        {q' q'' : Queue T} {ins outs ins' outs' : List T}
        → Run q q' ins outs
        → Step q' q'' ins' outs'
        → Run q q'' (ins ++ ins') (outs ++ outs')

  -- First in, first out: over any run of completed calls of `Push`, `TryPush`, `Pop` and `TryPop`, with
  -- and without a timeout, what the queue held and what went in is what came out and what it holds, in
  -- this order. A call may have waited; `PushFront` is not among the calls.
  pub Run-fifo :
      {q q' : Queue T} {ins outs : List T} → Run q q' ins outs → q.items ++ ins ≡ outs ++ q'.items
  Run-fifo start = append-nil _
  Run-fifo (then_ {q' = q'} {ins = ins} {outs = outs} {ins' = ins'} {outs' = outs'} r s) =
      sym (append_assoc _ ins ins')
      ∙ ap (λ (l : List T). l ++ ins') (Run-fifo r)
      ∙ append_assoc outs q'.items ins'
      ∙ ap (◌++◌ outs) (Step-Effect s).fifo
      ∙ sym (append_assoc outs outs' _)

  -- No run takes a queue that is within its capacity over it.
  pub Run-bounded :
      {q q' : Queue T} {ins outs : List T}
      → Run q q' ins outs
      → length q.items ≤ q.capacity
      → (length q'.items ≤ q'.capacity) × (q'.capacity ≡ q.capacity)
  Run-bounded start b = (b, refl)
  Run-bounded (then_ r s) b =
      let (fits, same) = Run-bounded r b in let f = Step-Effect s in (f.fits fits, f.same ∙ same)

-- One of the states that a call found.
pub data Among {ℓ} {A : Type ℓ} (x : A) : List A → Type ℓ where
  here : {y : A} {ys : List A} → x ≡ y → Among x (y ∷ ys)
  there : {y : A} {ys : List A} → Among x ys → Among x (y ∷ ys)
