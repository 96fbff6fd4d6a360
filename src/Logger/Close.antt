-- ===== src/Logger/Close.antt =====
-- src/logger_impl.cpp: the thread behind the queue that `LogMsg` and `Close` push to.
use xfutil.Base.{
  ℕ, ◌*◌, ◌^◌, ◌≤◌, ◌<◌, ◌≡◌, ◌⊎◌, ap, sym, ◌∙◌, List, [], ◌∷◌, ◌++◌, length, map, Option, none,
  some,
}
use xfutil.Queue.{Queue}
use xfutil.Queue.Runs.{Run, Run-fifo}
use xfutil.Logger.{LogData, FileSystem, LogConfig, Logger, write, log_thread, start}
use xfutil.Logger.History.{text, older, history, IsUsable}
use xfutil.Logger.Run.{texts}
use xfutil.Logger.Bound.{Bound-missing}
use xfutil.Logger.Kept.{start-Keeps, log_thread-Keeps}

module _ (fs : FileSystem) (conf : LogConfig) where
  none-ne : {l : Logger fs} → none ≡ some l → ⊥
  none-ne e = cc

  -- A thread that has ended does not see what comes later.
  log_thread-more :
      (l l' : Logger fs) (outs more : List (Option LogData))
      → log_thread fs conf l outs ≡ some l'
      → log_thread fs conf l (outs ++ more) ≡ some l'
  unfolding log_thread
  log_thread-more l l' [] more h = absurd (none-ne h)
  log_thread-more l l' (none ∷ outs) more h = h
  log_thread-more l l' (some d ∷ outs) more h = log_thread-more (write fs conf l d) l' outs more h

  -- Where the calls of the queue, in any interleaving of the threads, push some texts, then the mark of
  -- `Close` and then anything, and the thread that `Start` started on an empty queue has ended on what it
  -- popped: the log files have the bytes that they had at `Start` and all texts pushed before the mark,
  -- in the order of the pushes, but for some bytes dropped at the beginning. What was dropped is the
  -- beginning of what the files with a number had at `Start`, so every text pushed is there, or the files
  -- with a number are full: they have at least `max_file_num` times `max_file_size` bytes, the newest ones
  -- in front of those in the log. The conditions on the files are those of `IsUsable`, and the log has less
  -- than 2^64 bytes at `Start`.
  pub Run-history :
      (use_ : IsUsable fs conf) (s : fs.State) (lines : List LogData)
      (rest outs : List (Option LogData)) (q q' : Queue (Option LogData)) (l l' : Logger fs)
      → length (text fs conf s conf.file_path) < 2 ^ 64
      → q.items ≡ []
      → Run q q' (map some lines ++ none ∷ rest) outs
      → start fs conf s ≡ some l
      → log_thread fs conf l outs ≡ some l'
      → (dropped : List ℕ) × (dropped ++ history fs conf l'.files
          ≡ history fs conf s ++ texts lines)
        × (((kept : List ℕ) × (dropped ++ kept ≡ older fs conf s conf.max_file_num))
            ⊎ (conf.max_file_num * conf.max_file_size
                ≤ length (older fs conf l'.files conf.max_file_num)))
  Run-history use_ s lines rest outs q q' l l' small empty run starts ended =
      let (open_log, keeps) = start-Keeps fs conf use_ s l small starts in
      let pushed : map some lines ++ none ∷ rest ≡ outs ++ q'.items =
        ap (λ xs. xs ++ (map some lines ++ none ∷ rest)) (sym empty) ∙ Run-fifo run in
      let whole : log_thread fs conf l (map some lines ++ none ∷ rest) ≡ some l' =
        ap (log_thread fs conf l) pushed ∙ log_thread-more l l' outs q'.items ended in
      let k = log_thread-Keeps fs conf use_ s [] l l' lines rest open_log keeps whole in
      (k.dropped, k.shows, Bound-missing fs conf s l'.files k.dropped k.bound)
