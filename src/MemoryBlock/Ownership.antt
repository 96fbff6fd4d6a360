-- ===== src/MemoryBlock/Ownership.antt =====
-- src/memory_block.cpp: who owns the elements of a block, over any sequence of calls.
use xfutil.Base.{◌↔◌, ℕ, ◌≡◌, ◌≢◌, inl, inr, arith, List, [], ◌∷◌, ◌++◌, length}
use xfutil.MemoryBlock.{MemoryBlock, init, alloc, free}
use xfutil.MemoryBlock.Valid.{IsSized, capacity, IsValid, init-IsValid}
use xfutil.MemoryBlock.Alloc.{alloc-gives}
use xfutil.MemoryBlock.Free.{report, free-IsValid-report}

-- The state after calls on a new block in which callers free what they hold, and what they hold.
pub data Calls (links : ℕ → ℕ) (address block_size element_size : ℕ)
    : MemoryBlock → List ℕ → Type 0 where
  made : Calls links address block_size element_size (init links address block_size element_size) []
  allocated :
      {b : MemoryBlock} {held : List ℕ}
      → Calls links address block_size element_size b held
      → (alloc b).1 ≢ 0
      → Calls links address block_size element_size (alloc b).0 ((alloc b).1 ∷ held)
  freed :
      {b : MemoryBlock} (before after : List ℕ) (element : ℕ)
      → Calls links address block_size element_size b (before ++ element ∷ after)
      → Calls links address block_size element_size (free b element).0 (before ++ after)

-- After any calls on a new block, there is a list of the free elements.
Calls-IsValid :
    (links : ℕ → ℕ) (address block_size element_size : ℕ)
    → IsSized address block_size element_size
    → {b : MemoryBlock} {held : List ℕ} → Calls links address block_size element_size b held
    → (xs : List ℕ) × (rest : ℕ) × IsValid address block_size element_size b xs held rest
Calls-IsValid links address block_size element_size s made =
    ([], capacity block_size element_size, init-IsValid links address block_size element_size s)
Calls-IsValid links address block_size element_size s
      (allocated {b = b} {held = held} calls given) =
    let (xs, rest, v) = Calls-IsValid links address block_size element_size s calls in
    elim (alloc-gives address block_size element_size b xs held rest s v) [
      | inl none ↦ absurd (given none.0)
      | inr more ↦ let (given', ys, left, w) = more in (ys, left, w)
    ]
Calls-IsValid links address block_size element_size s (freed {b = b} before after element calls) =
    let (xs, rest, v) = Calls-IsValid links address block_size element_size s calls in
    (
      element ∷ xs,
      rest,
      (free-IsValid-report address block_size element_size b xs before after rest element s v).0,
    )

-- After any calls on a new block, `MemoryAlloc` gives null exactly when all of the elements that fit
-- the block are held.
pub Calls-alloc :
    (links : ℕ → ℕ) (address block_size element_size : ℕ)
    → IsSized address block_size element_size
    → {b : MemoryBlock} {held : List ℕ} → Calls links address block_size element_size b held
    → ((alloc b).1 ≡ 0) ↔ (length held ≡ capacity block_size element_size)
Calls-alloc links address block_size element_size s {b} {held} calls =
    let (xs, rest, v) = Calls-IsValid links address block_size element_size s calls in
    elim (alloc-gives address block_size element_size b xs held rest s v) [
      | inl none ↦ ((λ e. none.2), λ e. none.0)
      | inr more ↦
          let (given, ys, left, w) = more in
          ((λ e. absurd (omega (arith, e, given))), λ e. absurd (omega (arith, e, w.total)))
    ]

-- After any calls on a new block, `MemoryFree` of an element that is held reports whether it was the
-- last one held, or else whether all of the elements were held.
pub Calls-free :
    (links : ℕ → ℕ) (address block_size element_size : ℕ)
    → IsSized address block_size element_size
    → {b : MemoryBlock} (before after : List ℕ) (element : ℕ)
    → Calls links address block_size element_size b (before ++ element ∷ after)
    → (free b element).1 ≡ report (capacity block_size element_size) (length (before ++ after))
Calls-free links address block_size element_size s {b} before after element calls =
    let (xs, rest, v) = Calls-IsValid links address block_size element_size s calls in
    (free-IsValid-report address block_size element_size b xs before after rest element s v).1
