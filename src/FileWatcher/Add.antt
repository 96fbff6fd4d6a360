-- ===== src/FileWatcher/Add.antt =====
-- src/file_watcher.cpp: `Add`.
use xfutil.Base.{ℕ, ◌≡◌, refl, Bool, true, false, List, Option, none, some}
use xfutil.FileWatcher.{FileWatcher, add}

-- Where `inotify_add_watch` fails for an invalid descriptor, as documented, `Add` returns false and adds
-- nothing, whether the watcher has its descriptor or not.
pub add-fails :
    (exists : Bool) (add_watch : Option ℕ → Option ℕ) (w : FileWatcher) (path : List ℕ)
    → add_watch none ≡ none
    → add exists add_watch w path ≡ (w, false)
unfolding add
add-fails exists add_watch w path h = by_ifd w.ifd refl exists
  where
    by_ifd : (o : Option ℕ) → w.ifd ≡ o → (exists : Bool) → add exists add_watch w path ≡ (w, false)
    by_ifd (some fd) at exists = rw (add, at) refl
    by_ifd none at false = rw (add, at) refl
    by_ifd none at true = rw (add, at, h) refl
