-- ===== src/FileWatcher/Events.antt =====
-- src/file_watcher.cpp: `HandleEvent` on the events that the system lays out in a buffer.
use xfutil.Base.{
  ℕ, zero, suc, ◌+◌, ◌-◌, ◌/◌, ◌%◌, ◌^◌, ◌≤◌, ◌<◌, ◌≡◌, ◌≢◌, refl, ap, sym, ◌∙◌, subst, arith,
  ==_ne, List, [], ◌∷◌, ◌++◌, append_assoc, All, length, length-append, take, replicate,
  length-replicate, Option, none, some,
}
use xfutil.Memory.{Mem, Holds}
use xfutil.Memory.Laws
use xfutil.OwnedString.Copy.{text}
use xfutil.Path.{slash, combine}
use xfutil.FileWatcher.{FileWatcher, event_size, max_path_len, find, load, path_in, called}

-- An event, with the name of the file and the zeros behind it.
pub record Event : Type 0 where
  pub wd : ℕ
  pub mask : ℕ
  pub cookie : ℕ
  pub name : List ℕ
  pub zeros : ℕ

pub record IsEvent (e : Event) : Type 0 where
  pub wd : e.wd < 2 ^ 32
  pub mask : e.mask < 2 ^ 32
  pub cookie : e.cookie < 2 ^ 32
  pub len : length e.name + suc e.zeros < 2 ^ 32
  pub name : All (λ c. c ≢ 0) e.name

abbrev le32 : ℕ → List ℕ
le32 v = v % 256 ∷ v / 256 % 256 ∷ v / 256 / 256 % 256 ∷ v / 256 / 256 / 256 % 256 ∷ []

abbrev pub layout : Event → List ℕ
layout e =
    le32 e.wd
    ++ (le32 e.mask
        ++ (le32 e.cookie
            ++ (le32 (length e.name + suc e.zeros) ++ (e.name ++ replicate (suc e.zeros) 0))))

abbrev pub layouts : List Event → List ℕ
layouts [] = []
layouts (e ∷ es) = layout e ++ layouts es

-- The calls that the events ask for: those of known descriptors, in their order.
abbrev pub calls : FileWatcher → List Event → List (List ℕ × ℕ)
calls w [] = []
calls w (e ∷ es) = called (path_in (find e.wd w.paths) e.name) e.mask (calls w es)

load-Holds :
    (mem : Mem) (p v : ℕ) (rest : List ℕ)
    → v < 2 ^ 32
    → Holds mem p (le32 v ++ rest)
    → (load mem p ≡ v) × Holds mem (p + 4) rest
load-Holds mem p v rest small (h0, (h1, (h2, (h3, h)))) =
    let a1 : mem (p + 1) ≡ v / 256 % 256 = ap mem (omega arith) ∙ h1 in
    let a2 : mem (p + 2) ≡ v / 256 / 256 % 256 = ap mem (omega arith) ∙ h2 in
    let a3 : mem (p + 3) ≡ v / 256 / 256 / 256 % 256 = ap mem (omega arith) ∙ h3 in
    (omega (arith, small, h0, a1, a2, a3), subst (λ q. Holds mem q rest) (omega arith) h)

-- A C string in memory.
text-name :
    (n : ℕ) (mem : Mem) (p : ℕ) (name rest : List ℕ)
    → All (λ c. c ≢ 0) name
    → Holds mem p (name ++ 0 ∷ rest)
    → text mem p n ≡ take n name
text-name zero mem p name rest ne h = refl
text-name (suc n) mem p [] rest ne (h, hs) = rw h refl
text-name (suc n) mem p (c ∷ name) rest (ne, nes) (h, hs) =
    rw (h, ==_ne c 0 ne, text-name n mem (suc p) name rest nes hs) refl

take-append_take : (n m : ℕ) (xs ys : List ℕ) → n ≤ m → take n (xs ++ take m ys) ≡ take n (xs ++ ys)
take-append_take zero m xs ys h = refl
take-append_take (suc n) m (x ∷ xs) ys h =
    ap (◌∷◌ x) (take-append_take n m xs ys (omega (arith, h)))
take-append_take (suc n) zero [] ys h = absurd (omega (arith, h))
take-append_take (suc n) (suc m) [] [] h = refl
take-append_take (suc n) (suc m) [] (y ∷ ys) h =
    ap (◌∷◌ y) (take-append_take n m [] ys (omega (arith, h)))

-- A path shows no more than the buffer of a name.
pub path_in-take :
    (dir : Option (List ℕ)) (name : List ℕ) → path_in dir (take 255 name) ≡ path_in dir name
unfolding combine
path_in-take none name = refl
path_in-take (some dir) name = ap some (cut dir)
  where
    cut :
        (dir : List ℕ)
        → take (max_path_len - 1) (dir ++ slash ∷ take 255 name)
          ≡ take (max_path_len - 1) (dir ++ slash ∷ name)
    cut dir =
        ap (take (max_path_len - 1)) (sym (append_assoc dir (slash ∷ []) (take 255 name)))
        ∙ take-append_take (max_path_len - 1) 255 (dir ++ slash ∷ []) name (omega arith)
        ∙ ap (take (max_path_len - 1)) (append_assoc dir (slash ∷ []) name)

-- What the fields of an event show in memory.
pub record Shown (mem : Mem) (buf : ℕ) (e : Event) (rest : List ℕ) : Type 0 where
  pub wd : load mem buf ≡ e.wd
  pub mask : load mem (buf + 4) ≡ e.mask
  pub next : buf + event_size + load mem (buf + 12) ≡ buf + length (layout e)
  pub name : text mem (buf + event_size) 255 ≡ take 255 e.name
  pub after : Holds mem (buf + length (layout e)) rest

pub layout-Shown :
    (mem : Mem) (buf : ℕ) (e : Event) (rest : List ℕ)
    → IsEvent e
    → Holds mem buf (layout e ++ rest)
    → Shown mem buf e rest
layout-Shown mem buf e rest v h =
    let len = length e.name + suc e.zeros in
    let named = e.name ++ replicate (suc e.zeros) 0 in
    let (wd, h1) =
      load-Holds mem buf e.wd (le32 e.mask ++ (le32 e.cookie ++ (le32 len ++ (named ++ rest)))) v.wd
        h in
    let (mask, h2) =
      load-Holds mem (buf + 4) e.mask (le32 e.cookie ++ (le32 len ++ (named ++ rest))) v.mask h1 in
    let (cookie, h3) =
      load-Holds mem (buf + 4 + 4) e.cookie (le32 len ++ (named ++ rest)) v.cookie h2 in
    let (size, h4) = load-Holds mem (buf + 4 + 4 + 4) len (named ++ rest) v.len h3 in
    let at : buf + 4 + 4 + 4 ≡ buf + 12 = omega arith in
    let end : buf + 4 + 4 + 4 + 4 ≡ buf + event_size = omega arith in
    let h5 : Holds mem (buf + event_size) (named ++ rest) =
      subst (λ q. Holds mem q (named ++ rest)) end h4 in
    let total : buf + event_size + length named ≡ buf + length (layout e) = omega arith in
    record {
      wd = wd;
      mask = mask;
      next = omega (
        arith,
        total,
        rw at at size,
        length-append e.name (replicate (suc e.zeros) 0),
        length-replicate {A = ℕ} (suc e.zeros) 0,
      );
      name = text-name 255 mem (buf + event_size) e.name (replicate e.zeros 0 ++ rest) v.name (
          subst (Holds mem (buf + event_size))
            (append_assoc e.name (replicate (suc e.zeros) 0) rest) h5);
      after =
          subst (λ q. Holds mem q rest) total
            (Laws.Holds-append named rest mem (buf + event_size) h5).1;
    }
