-- ===== src/Aio/Tally.antt =====
-- src/aio.cpp: the slots of a request counted by weights.
use xfutil.Base.{
  ℕ, zero, suc, ◌+◌, ◌≤◌, ◌<◌, ◌≡◌, ap, arith, List, [], ◌∷◌, Option, none, some, length, get_elem?,
  set, length-set,
}
use mathlib.Core.Option.{some-injective}
use xfutil.Aio.Process.{failures, Phase, queued, ran, over, last, called, Slot}

pub none-ne-some {ℓ} : {A : Type ℓ} {a : A} → none ≡ some a → ⊥
none-ne-some e = cc

-- The sum of the weights of the slots.
abbrev pub tally : (Slot → ℕ) → List Slot → ℕ
tally w [] = 0
tally w (s ∷ ss) = w s + tally w ss

pub tally-set :
    (w : Slot → ℕ) (ss : List Slot) (i : ℕ) (s s' : Slot)
    → get_elem? ss i ≡ some s
    → tally w (set ss i s') + w s ≡ tally w ss + w s'
tally-set w [] i s s' e = absurd (none-ne-some e)
tally-set w (x ∷ ss) zero s s' e = omega (arith, ap w (some-injective _ _ e))
tally-set w (x ∷ ss) (suc i) s s' e = omega (arith, tally-set w ss i s s' e)

abbrev pub completed_phase : Phase → ℕ
completed_phase queued = 0
completed_phase ran = 0
completed_phase over = 1
completed_phase last = 1
completed_phase called = 1

-- The thread found itself the last.
abbrev pub last_phase : Phase → ℕ
last_phase queued = 0
last_phase ran = 0
last_phase over = 0
last_phase last = 1
last_phase called = 1

abbrev pub called_phase : Phase → ℕ
called_phase queued = 0
called_phase ran = 0
called_phase over = 0
called_phase last = 0
called_phase called = 1

abbrev pub failed_phase : Option ℕ → Phase → ℕ
failed_phase ret queued = 0
failed_phase ret ran = failures ret
failed_phase ret over = failures ret
failed_phase ret last = failures ret
failed_phase ret called = failures ret

abbrev pub is_completed : Slot → ℕ
is_completed s = completed_phase s.phase

abbrev pub is_last : Slot → ℕ
is_last s = last_phase s.phase

abbrev pub is_called : Slot → ℕ
is_called s = called_phase s.phase

abbrev pub has_failed : Slot → ℕ
has_failed s = failed_phase s.command.ret s.phase

-- A weight of at most 1 for each slot.
pub tally-le :
    (w w' : Slot → ℕ) → ((s : Slot) → w s ≤ w' s) → (ss : List Slot) → tally w ss ≤ tally w' ss
tally-le w w' h [] = omega arith
tally-le w w' h (s ∷ ss) = omega (arith, h s, tally-le w w' h ss)

pub tally-length :
    (w : Slot → ℕ) → ((s : Slot) → w s ≤ 1) → (ss : List Slot) → tally w ss ≤ length ss
tally-length w h [] = omega arith
tally-length w h (s ∷ ss) = omega (arith, h s, tally-length w h ss)

pub completed_phase-le : (s : Slot) → is_completed s ≤ 1
completed_phase-le s = ground arith

pub called-le-last : (s : Slot) → is_called s ≤ is_last s
called-le-last s = ground arith

pub has_failed-le : (s : Slot) → has_failed s ≤ 1
has_failed-le s = ground arith

-- While a slot is not completed, the count is not full.
pub not_full :
    (ss : List Slot) (i : ℕ) (s : Slot)
    → get_elem? ss i ≡ some s
    → is_completed s ≡ 0
    → tally is_completed ss < length ss
not_full ss i s e h = omega (
  arith,
  tally-set is_completed ss i s (record { command = s.command; phase = over }) e,
  tally-length is_completed completed_phase-le
      (set ss i (record { command = s.command; phase = over })),
  length-set ss i (record { command = s.command; phase = over }),
)
