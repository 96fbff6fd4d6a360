-- ===== src/Tests/Aio.antt =====
-- src/aio.cpp at concrete inputs.
use xfutil.Base.{
  ℕ, ◌≡◌, ◌⊎◌, refl, arith, List, [], ◌∷◌, some, none, get_or, get_elem?, length, inl, inr, sym, ap,
  zero, suc,
}
use mathlib.Core.Option.{some-injective}
use xfutil.Base.Int.{pos, negsuc}
use xfutil.Aio.{Command, cmd_read, cmd_fsync}
use xfutil.Aio.Process.{
  Sys, execute, call_of, Request, Slot, over, called, new_request, run_command, complete_command,
  call_back, Step, run, complete, call, Steps, created, then_,
}
use xfutil.Aio.Tally.{tally, is_completed, has_failed}
use xfutil.Aio.Complete.{Steps-called, Steps-finished}
use xfutil.Aio.Threads.{initial, thread_loop, stop_pushes, start, thread_num}
use xfutil.Aio.Order.{submit_all, all_for_thread, thread_loop-submit}

abbrev command : ℕ → ℕ → Command
command cmd fd = record { cmd = cmd; fd = fd; pos = 0; buf = 64; size = 16; ret = none; error = 0 }

-- Every system call fails with `EIO`.
abbrev broken : Sys
broken k = (none, 5)

-- The commands of a request after each of them was worked off by a broken system.
abbrev failed : ℕ → ℕ → Command
failed cmd fd = record { cmd = cmd; fd = fd; pos = 0; buf = 64; size = 16; ret = none; error = 5 }

abbrev cmds : List Command
cmds = command cmd_read 3 ∷ command cmd_fsync 4 ∷ []

abbrev ended : Request
ended = record {
  slots =
      record { command = failed cmd_read 3; phase = called }
      ∷ record { command = failed cmd_fsync 4; phase = over }
      ∷ [];
  cmd_fail_cnt = 2;
  completed_cnt = 2;
  calls = 2 ∷ [];
}

-- The second command is completed first.
some-Steps : Steps cmds ended
unfolding new_request run_command complete_command call_back execute call_of
some-Steps =
    then_
      (then_
        (then_
          (then_ (then_ created (run broken 1 (command cmd_fsync 4) refl))
            (complete 1 (failed cmd_fsync 4) refl))
          (run broken 0 (command cmd_read 3) refl))
        (complete 0 (failed cmd_read 3) refl))
      (call 0 (failed cmd_read 3) refl)

Steps-called_example :
    (ended.calls ≡ [])
    ⊎ ((tally is_completed ended.slots ≡ length cmds)
        × (ended.calls ≡ tally has_failed ended.slots ∷ []))
Steps-called_example = Steps-called cmds (omega arith) (omega arith) some-Steps

ended_at :
    (i : ℕ) (s : Slot) → get_elem? ended.slots i ≡ some s → (s.phase ≡ called) ⊎ (s.phase ≡ over)
ended_at zero s e = inl (sym (ap (λ (t : Slot). t.phase) (some-injective _ _ e)))
ended_at (suc zero) s e = inr (sym (ap (λ (t : Slot). t.phase) (some-injective _ _ e)))
ended_at (suc (suc i)) s e = cc

no-Step : (r r' : Request) → r ≡ ended → ¬ Step r r'
no-Step r r' e (run sys i c h) = elim (ended_at i _ (rw e at h)) [ inl x ↦ cc | inr x ↦ cc ]
no-Step r r' e (complete i c h) = elim (ended_at i _ (rw e at h)) [ inl x ↦ cc | inr x ↦ cc ]
no-Step r r' e (call i c h) = elim (ended_at i _ (rw e at h)) [ inl x ↦ cc | inr x ↦ cc ]

Steps-finished_example : ended.calls ≡ tally has_failed ended.slots ∷ []
Steps-finished_example =
    Steps-finished cmds (omega arith) (omega arith) some-Steps (λ r'. no-Step ended r' refl)

thread_loop-submit_example :
    thread_loop (
      get_or
        (stop_pushes (
          submit_all
            (start 4 initial (pos 2) (negsuc 0)).0
            ((512, cmds) ∷ (640, cmds) ∷ []))).io_queues
        1
        [])
    ≡ (all_for_thread (thread_num 4 (pos 2)) 1 ((512, cmds) ∷ (640, cmds) ∷ []), some [])
unfolding initial thread_num
thread_loop-submit_example =
    thread_loop-submit 4 initial (pos 2) (negsuc 0) ((512, cmds) ∷ (640, cmds) ∷ []) 1 refl
      (omega arith)
