-- ===== src/FileWatcher/Handle.antt =====
-- src/file_watcher.cpp: `HandleEvent`.
use xfutil.Base.{
  ℕ, zero, suc, ◌+◌, ◌≤◌, ◌<◌, ◌≡◌, refl, ap, sym, ◌∙◌, arith, ltb, true, false, List, [], ◌∷◌, All,
  length, length-append,
}
use xfutil.Memory.{Mem, Holds}
use xfutil.FileWatcher.{FileWatcher, find, path_in, get_file_path, called, handle_event}
use xfutil.FileWatcher.Events.{
  Event, IsEvent, layout, layouts, calls, Shown, layout-Shown, path_in-take,
}

handle-Shown :
    (fuel : ℕ) (w : FileWatcher) (mem : Mem) (buf end : ℕ) (e : Event) (rest : List ℕ)
    → buf < end
    → Shown mem buf e rest
    → handle_event (suc fuel) w mem buf end
      ≡ called
          (path_in (find e.wd w.paths) e.name)
          e.mask
          (handle_event fuel w mem (buf + length (layout e)) end)
unfolding handle_event get_file_path
handle-Shown fuel w mem buf end e rest less s =
    let more : ltb buf end ≡ true = ground arith in
    rw (more, s.wd, s.mask, s.next, s.name, path_in-take (find e.wd w.paths) e.name) refl

-- For a buffer that the system filled with events, each with its name and one zero or more behind it,
-- `HandleEvent` makes one call for each event of a descriptor that the watcher has, in the order of the
-- events, with the path of the name in the watched directory, cut to 255 bytes, and the event's mask;
-- and none for the others. As many rounds as the buffer has bytes are enough.
pub handle_event-calls :
    (fuel : ℕ) (w : FileWatcher) (mem : Mem) (buf : ℕ) (es : List Event)
    → All IsEvent es
    → Holds mem buf (layouts es)
    → length (layouts es) ≤ fuel
    → handle_event fuel w mem buf (buf + length (layouts es)) ≡ calls w es
unfolding handle_event
handle_event-calls zero w mem buf [] v h enough = refl
handle_event-calls (suc fuel) w mem buf [] v h enough =
    let done : ltb buf (buf + 0) ≡ false = ground arith in rw done refl
handle_event-calls zero w mem buf (e ∷ es) v h enough = absurd (omega (arith, enough))
handle_event-calls (suc fuel) w mem buf (e ∷ es) (v, vs) h enough =
    let s = layout-Shown mem buf e (layouts es) v h in
    let sum = length-append (layout e) (layouts es) in
    let end : buf + length (layout e) + length (layouts es) ≡ buf + length (layouts (e ∷ es)) =
      omega (arith, sum) in
    let rest =
      handle_event-calls fuel w mem (buf + length (layout e)) es vs s.after
        (omega (arith, sum, enough)) in
    handle-Shown fuel w mem buf (buf + length (layouts (e ∷ es))) e (layouts es) (omega arith) s
    ∙ ap (called (path_in (find e.wd w.paths) e.name) e.mask)
        (ap (handle_event fuel w mem (buf + length (layout e))) (sym end) ∙ rest)
