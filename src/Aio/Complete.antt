-- ===== src/Aio/Complete.antt =====
-- src/aio.cpp: the callback of a request, whatever the order of the threads' steps.
use xfutil.Base.{
  ℕ, suc, ◌+◌, ◌-◌, ◌%◌, ◌^◌, ◌≤◌, ◌<◌, ◌≡◌, Bool-cases, inl, inr, refl, ap, sym, subst, ◌∙◌, arith,
  ◌⊎◌, Bool, true, false, ◌==◌, List, [], ◌∷◌, ◌++◌, none, some, length, map, get_elem?, set, All,
  length-set, length-append,
}
use native.Mathlib.Nat.{mod-eq_of_lt}
use xfutil.Aio.{Command}
use xfutil.Aio.Process.{
  Sys, execute, failures, Phase, queued, ran, over, last, called, Slot, Request, new_request,
  run_command, complete_command, call_back, Step, run, complete, call, Steps, created, then_,
}
use xfutil.Aio.Tally.{
  tally, tally-set, tally-le, tally-length, completed_phase, last_phase, called_phase, failed_phase,
  is_completed, is_last, is_called, has_failed, called-le-last, has_failed-le, not_full,
}

abbrev one_if : Bool → ℕ
one_if true = 1
one_if false = 0

record IsValid (n : ℕ) (r : Request) : Type 0 where
  size : length r.slots ≡ n
  completed : r.completed_cnt ≡ tally is_completed r.slots
  failed : r.cmd_fail_cnt ≡ tally has_failed r.slots
  one_last : tally is_last r.slots ≡ one_if (r.completed_cnt == n)
  one_call : length r.calls ≡ tally is_called r.slots
  counts : All (λ c. c ≡ r.cmd_fail_cnt) r.calls

All-empty : (k : ℕ) (xs : List ℕ) → length xs ≡ 0 → All (λ c. c ≡ k) xs
All-empty k [] h = tt
All-empty k (x ∷ xs) h = absurd (omega arith)

All-snoc : (k : ℕ) (xs : List ℕ) → All (λ c. c ≡ k) xs → All (λ c. c ≡ k) (xs ++ k ∷ [])
All-snoc k [] h = (refl, tt)
All-snoc k (y ∷ ys) (h, hs) = (h, All-snoc k ys hs)

one_if_false : (a b : ℕ) → a < b → one_if (a == b) ≡ 0
one_if_false a b h = ground arith

-- Before the last completion there was no call.
no_call : (n : ℕ) (r : Request) → IsValid n r → r.completed_cnt < n → length r.calls ≡ 0
no_call n r v h = omega (
  arith,
  v.one_last,
  v.one_call,
  one_if_false r.completed_cnt n h,
  tally-le is_called is_last called-le-last r.slots,
)

run-IsValid :
    (n : ℕ) (r : Request) (sys : Sys) (i : ℕ) (c : Command)
    → n < 2 ^ 32
    → IsValid n r
    → get_elem? r.slots i ≡ some (record { command = c; phase = queued })
    → IsValid n (run_command sys r i c)
unfolding run_command
run-IsValid n r sys i c small v e = record {
  size = omega (arith, length-set r.slots i s', v.size);
  completed = omega (arith, v.completed, tally-set is_completed r.slots i s s' e);
  failed =
      mod-eq_of_lt (
        omega (
          arith,
          counted,
          tally-length has_failed has_failed-le ss',
          length-set r.slots i s',
          v.size,
        ))
      ∙ counted;
  one_last = omega (arith, v.one_last, tally-set is_last r.slots i s s' e);
  one_call = omega (arith, v.one_call, tally-set is_called r.slots i s s' e);
  counts =
      All-empty _ r.calls
        (no_call n r v (omega (arith, v.completed, v.size, not_full r.slots i s e refl)));
}
  where
    s : Slot
    s = record { command = c; phase = queued }

    s' : Slot
    s' = record { command = execute sys c; phase = ran }

    ss' : List Slot
    ss' = set r.slots i s'

    counted : r.cmd_fail_cnt + failures (execute sys c).ret ≡ tally has_failed ss'
    counted = omega (arith, v.failed, tally-set has_failed r.slots i s s' e)

complete_with :
    (n : ℕ) (r : Request) (i : ℕ) (c : Command) (p : Phase)
    → n < 2 ^ 32
    → IsValid n r
    → get_elem? r.slots i ≡ some (record { command = c; phase = ran })
    → completed_phase p ≡ 1
    → called_phase p ≡ 0
    → failed_phase c.ret p ≡ failures c.ret
    → last_phase p ≡ one_if (r.completed_cnt + 1 == n)
    → IsValid n (record r {
      slots = set r.slots i (record { command = c; phase = p });
      completed_cnt = (r.completed_cnt + 1) % 2 ^ 32;
    })
complete_with n r i c p small v e done no_callback failed last_one = rw wrap (record {
  size = omega (arith, length-set r.slots i s', v.size);
  completed = omega (arith, v.completed, tally-set is_completed r.slots i s s' e);
  failed = omega (arith, v.failed, tally-set has_failed r.slots i s s' e);
  one_last =
      omega (
        arith,
        v.one_last,
        one_if_false r.completed_cnt n below,
        tally-set is_last r.slots i s s' e,
      );
  one_call = omega (arith, v.one_call, tally-set is_called r.slots i s s' e);
  counts = v.counts;
})
  where
    s : Slot
    s = record { command = c; phase = ran }

    s' : Slot
    s' = record { command = c; phase = p }

    below : r.completed_cnt < n
    below = omega (arith, v.completed, v.size, not_full r.slots i s e refl)

    wrap : (r.completed_cnt + 1) % 2 ^ 32 ≡ r.completed_cnt + 1
    wrap = mod-eq_of_lt (omega (arith, below))

complete-IsValid :
    (n : ℕ) (r : Request) (i : ℕ) (c : Command)
    → 0 < n
    → n < 2 ^ 32
    → IsValid n r
    → get_elem? r.slots i ≡ some (record { command = c; phase = ran })
    → IsValid n (complete_command r i c)
unfolding complete_command
complete-IsValid n r i c pos small v e = elim (Bool-cases (r.completed_cnt == length r.slots - 1)) [
  | inl is_end ↦
      rw is_end (complete_with n r i c last small v e refl refl refl (ground (arith, v.size)))
  | inr is_more ↦
      rw is_more (complete_with n r i c over small v e refl refl refl (ground (arith, v.size)))
]

call-IsValid :
    (n : ℕ) (r : Request) (i : ℕ) (c : Command)
    → IsValid n r
    → get_elem? r.slots i ≡ some (record { command = c; phase = last })
    → IsValid n (call_back r i c)
unfolding call_back
call-IsValid n r i c v e = record {
  size = omega (arith, length-set r.slots i s', v.size);
  completed = omega (arith, v.completed, tally-set is_completed r.slots i s s' e);
  failed = omega (arith, v.failed, tally-set has_failed r.slots i s s' e);
  one_last = omega (arith, v.one_last, tally-set is_last r.slots i s s' e);
  one_call = omega (
    arith,
    v.one_call,
    length-append {0} r.calls (r.cmd_fail_cnt ∷ []),
    tally-set is_called r.slots i s s' e,
  );
  counts = All-snoc r.cmd_fail_cnt r.calls v.counts;
}
  where
    s : Slot
    s = record { command = c; phase = last }

    s' : Slot
    s' = record { command = c; phase = called }

created-tally :
    (w : Slot → ℕ) (cmds : List Command)
    → ((c : Command) → w (record { command = c; phase = queued }) ≡ 0)
    → tally w (map (λ c. record { command = c; phase = queued }) cmds) ≡ 0
created-tally w [] h = refl
created-tally w (c ∷ cmds) h = omega (arith, h c, created-tally w cmds h)

length-map : {A B : Type 0} (f : A → B) (xs : List A) → length (map f xs) ≡ length xs
length-map f [] = refl
length-map f (x ∷ xs) = ap suc (length-map f xs)

new_request-IsValid :
    (cmds : List Command) → 0 < length cmds → IsValid (length cmds) (new_request cmds)
unfolding new_request
new_request-IsValid cmds pos = record {
  size = length-map _ cmds;
  completed = sym (created-tally is_completed cmds (λ c. refl));
  failed = sym (created-tally has_failed cmds (λ c. refl));
  one_last = created-tally is_last cmds (λ c. refl) ∙ sym (one_if_false 0 (length cmds) pos);
  one_call = sym (created-tally is_called cmds (λ c. refl));
  counts = tt;
}

Step-IsValid :
    (n : ℕ) {r r' : Request} → 0 < n → n < 2 ^ 32 → IsValid n r → Step r r' → IsValid n r'
Step-IsValid n {r} pos small v (run sys i c e) = run-IsValid n r sys i c small v e
Step-IsValid n {r} pos small v (complete i c e) = complete-IsValid n r i c pos small v e
Step-IsValid n {r} pos small v (call i c e) = call-IsValid n r i c v e

Steps-IsValid :
    (cmds : List Command) {r : Request}
    → 0 < length cmds
    → length cmds < 2 ^ 32
    → Steps cmds r
    → IsValid (length cmds) r
Steps-IsValid cmds pos small created = new_request-IsValid cmds pos
Steps-IsValid cmds pos small (then_ steps step) =
    Step-IsValid (length cmds) pos small (Steps-IsValid cmds pos small steps) step

at_most_one_call :
    (k : ℕ) (calls : List ℕ)
    → length calls ≤ 1
    → All (λ c. c ≡ k) calls
    → (calls ≡ []) ⊎ ((calls ≡ k ∷ []) × (length calls ≡ 1))
at_most_one_call k [] h all = inl refl
at_most_one_call k (c ∷ []) h (e, rest) = inr (ap (λ x. x ∷ []) e, refl)
at_most_one_call k (c ∷ d ∷ calls) h all = absurd (omega arith)

one_if_cases : (a b : ℕ) → (one_if (a == b) ≤ 1) × (1 ≤ one_if (a == b) → a ≡ b)
one_if_cases a b = ground arith

valid-calls :
    (n : ℕ) (r : Request)
    → IsValid n r
    → (r.calls ≡ []) ⊎ ((r.calls ≡ tally has_failed r.slots ∷ []) × (length r.calls ≡ 1))
valid-calls n r v =
    at_most_one_call (tally has_failed r.slots) r.calls
      (omega (
        arith,
        v.one_call,
        v.one_last,
        (one_if_cases r.completed_cnt n).0,
        tally-le is_called is_last called-le-last r.slots,
      ))
      (subst (λ (k : ℕ). All (λ c. c ≡ k) r.calls) v.failed v.counts)

-- However the threads' steps on a request of at least one and fewer than 2^32 commands interleave,
-- the callback is called at most once, and if it is, then all commands have completed, and the count
-- it is called with is that of the commands whose system call failed.
pub Steps-called :
    (cmds : List Command) {r : Request}
    → 0 < length cmds
    → length cmds < 2 ^ 32
    → Steps cmds r
    → (r.calls ≡ [])
      ⊎ ((tally is_completed r.slots ≡ length cmds) × (r.calls ≡ tally has_failed r.slots ∷ []))
Steps-called cmds {r} pos small steps = elim (valid-calls (length cmds) r v) [
  | inl no_calls ↦ inl no_calls
  | inr (one, size) ↦ inr (
    omega (
      arith,
      v.one_call,
      v.one_last,
      v.completed,
      (one_if_cases r.completed_cnt (length cmds)).1,
      tally-le is_called is_last called-le-last r.slots,
    ),
    one,
  )
]
  where
    v : IsValid (length cmds) r
    v = Steps-IsValid cmds pos small steps

-- The thread of a slot has nothing left to do.
abbrev Ended : Phase → Type 0
Ended p = (completed_phase p ≡ 1) × (last_phase p ≡ called_phase p)

Ended-slot :
    (r : Request) (i : ℕ) (c : Command) (p : Phase)
    → ((r' : Request) → ¬ Step r r')
    → get_elem? r.slots i ≡ some (record { command = c; phase = p })
    → Ended p
Ended-slot r i c queued stuck e = absurd (stuck _ (run (λ k. (none, 0)) i c e))
Ended-slot r i c ran stuck e = absurd (stuck _ (complete i c e))
Ended-slot r i c over stuck e = (refl, refl)
Ended-slot r i c last stuck e = absurd (stuck _ (call i c e))
Ended-slot r i c called stuck e = (refl, refl)

Ended-tally :
    (ss : List Slot)
    → ((i : ℕ) (s : Slot) → get_elem? ss i ≡ some s → Ended s.phase)
    → (tally is_completed ss ≡ length ss) × (tally is_last ss ≡ tally is_called ss)
Ended-tally [] h = (refl, refl)
Ended-tally (s ∷ ss) h =
    let here = h 0 s refl in
    let there = Ended-tally ss (λ i. h (suc i)) in
    (omega (arith, here.0, there.0), omega (arith, here.1, there.1))

one_if_same : (a : ℕ) → one_if (a == a) ≡ 1
one_if_same a = ground arith

-- Once no thread has a step left to take on such a request, the callback has been called.
pub Steps-finished :
    (cmds : List Command) {r : Request}
    → 0 < length cmds
    → length cmds < 2 ^ 32
    → Steps cmds r
    → ((r' : Request) → ¬ Step r r')
    → r.calls ≡ tally has_failed r.slots ∷ []
Steps-finished cmds {r} pos small steps stuck = elim (valid-calls (length cmds) r v) [
  | inl no_calls ↦ absurd (omega (arith, ap length no_calls, v.one_call, last_one, ended.1))
  | inr (one, size) ↦ one
]
  where
    v : IsValid (length cmds) r
    v = Steps-IsValid cmds pos small steps

    ended :
        (tally is_completed r.slots ≡ length r.slots)
        × (tally is_last r.slots ≡ tally is_called r.slots)
    ended = Ended-tally r.slots (λ i s e. Ended-slot r i s.command s.phase stuck e)

    full : r.completed_cnt ≡ length cmds
    full = omega (arith, ended.0, v.completed, v.size)

    last_one : tally is_last r.slots ≡ 1
    last_one = v.one_last ∙ rw full (one_if_same (length cmds))
