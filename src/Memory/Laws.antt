-- ===== src/Memory/Laws.antt =====
-- What a write leaves in memory, inside the written range and outside of it.
use xfutil.Base.{ℕ, zero, suc, ◌+◌, ◌≤◌, ◌<◌, ◌≡◌, refl, ◌⊎◌, ◌∙◌, arith, ap, ap₂, subst}
use xfutil.Base.{List, [], ◌∷◌, ◌++◌, length}
use xfutil.Memory.{Mem, store, write, read, Holds}

store_self : (mem : Mem) (p b : ℕ) → store mem p b p ≡ b
unfolding store
store_self mem p b = ground arith

store_other : (mem : Mem) (p b q : ℕ) → (q < p) ⊎ (p < q) → store mem p b q ≡ mem q
unfolding store
store_other mem p b q h = ground arith

-- A write changes nothing outside its range.
pub write_outside :
    (bs : List ℕ) (mem : Mem) (p q : ℕ) → (q < p) ⊎ (p + length bs ≤ q) → write mem p bs q ≡ mem q
unfolding write
write_outside [] mem p q h = refl
write_outside (b ∷ bs) mem p q h = omega (
  arith,
  write_outside bs (store mem p b) (suc p) q (omega arith),
  store_other mem p b q (omega arith),
)

pub write-Holds : (bs : List ℕ) (mem : Mem) (p : ℕ) → Holds (write mem p bs) p bs
unfolding write
write-Holds [] mem p = tt
write-Holds (b ∷ bs) mem p = (
  omega (arith, write_outside bs (store mem p b) (suc p) p (omega arith), store_self mem p b),
  write-Holds bs (store mem p b) (suc p),
)

-- Held bytes survive a write elsewhere.
pub Holds-write :
    (xs : List ℕ) (bs : List ℕ) (mem : Mem) (p q : ℕ)
    → (p + length xs ≤ q) ⊎ (q + length bs ≤ p)
    → Holds mem p xs
    → Holds (write mem q bs) p xs
Holds-write [] bs mem p q h held = tt
Holds-write (x ∷ xs) bs mem p q h (here, there) = (
  omega (arith, write_outside bs mem q p (omega arith)),
  Holds-write xs bs mem (suc p) q (omega arith) there,
)

pub write-append :
    (xs bs : List ℕ) (mem : Mem) (p : ℕ)
    → write mem p (xs ++ bs) ≡ write (write mem p xs) (p + length xs) bs
unfolding write
write-append [] bs mem p = ap (λ (q : ℕ). write mem q bs) (omega arith)
write-append (x ∷ xs) bs mem p =
    write-append xs bs (store mem p x) (suc p)
    ∙ ap (λ (q : ℕ). write (write (store mem p x) (suc p) xs) q bs) (omega arith)

pub Holds-append :
    (xs bs : List ℕ) (mem : Mem) (p : ℕ)
    → Holds mem p (xs ++ bs)
    → Holds mem p xs × Holds mem (p + length xs) bs
Holds-append [] bs mem p h = (tt, subst (λ (q : ℕ). Holds mem q bs) (omega arith) h)
Holds-append (x ∷ xs) bs mem p (here, there) =
    let (front, back) = Holds-append xs bs mem (suc p) there in
    ((here, front), subst (λ (q : ℕ). Holds mem q bs) (omega arith) back)

pub Holds-read : (bs : List ℕ) (mem : Mem) (p : ℕ) → Holds mem p bs → read mem p (length bs) ≡ bs
unfolding read
Holds-read [] mem p h = refl
Holds-read (b ∷ bs) mem p (here, there) = ground (arith, Holds-read bs mem (suc p) there)

pub read-Holds : (n : ℕ) (mem : Mem) (p : ℕ) → Holds mem p (read mem p n)
unfolding read
read-Holds zero mem p = tt
read-Holds (suc n) mem p = (refl, read-Holds n mem (suc p))

pub length-read : (n : ℕ) (mem : Mem) (p : ℕ) → length (read mem p n) ≡ n
unfolding read
length-read zero mem p = refl
length-read (suc n) mem p = omega (arith, length-read n mem (suc p))

-- Reading back what was written, and reading beside it.
pub read-write_self :
    (bs : List ℕ) (mem : Mem) (p n : ℕ) → length bs ≡ n → read (write mem p bs) p n ≡ bs
read-write_self bs mem p n h =
    subst (λ (k : ℕ). read (write mem p bs) p k ≡ bs) h
      (Holds-read bs (write mem p bs) p (write-Holds bs mem p))

pub read-write_apart :
    (bs : List ℕ) (mem : Mem) (p q n : ℕ)
    → (p + n ≤ q) ⊎ (q + length bs ≤ p)
    → read (write mem q bs) p n ≡ read mem p n
read-write_apart bs mem p q n h =
    subst (λ (k : ℕ). read (write mem q bs) p k ≡ read mem p n) (length-read n mem p)
      (Holds-read (read mem p n) (write mem q bs) p (
        Holds-write (read mem p n) bs mem p q (omega (arith, length-read n mem p))
          (read-Holds n mem p)))

-- A range is read in two parts.
pub read-append :
    (n m : ℕ) (mem : Mem) (p : ℕ) → read mem p (n + m) ≡ read mem p n ++ read mem (p + n) m
unfolding read
read-append zero m mem p = ap₂ (read mem) (omega arith) (omega arith)
read-append (suc n) m mem p =
    let more : suc n + m ≡ suc (n + m) = omega arith in
    let shift : suc p + n ≡ p + suc n = omega arith in
    ap (read mem p) more
    ∙ ap (λ (bs : List ℕ). mem p ∷ bs)
        (read-append n m mem (suc p) ∙ ap (λ (q : ℕ). read mem (suc p) n ++ read mem q m) shift)

pub read-suc : (n : ℕ) (mem : Mem) (p : ℕ) → read mem p (suc n) ≡ read mem p n ++ mem (p + n) ∷ []
unfolding read
read-suc zero mem p = ap (λ (q : ℕ). mem q ∷ []) (omega arith)
read-suc (suc n) mem p =
    ap (◌∷◌ (mem p))
      (read-suc n mem (suc p) ∙ ap (λ (q : ℕ). read mem (suc p) n ++ mem q ∷ []) (omega arith))
