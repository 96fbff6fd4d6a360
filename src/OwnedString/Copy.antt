-- ===== src/OwnedString/Copy.antt =====
-- include/xfutil/strutil.h: what the two functions `StrCpy` leave at the destination.
use xfutil.Base.{
  ℕ, zero, suc, ◌+◌, ◌-◌, ◌≤◌, ◌<◌, ◌≡◌, refl, ap, ap₂, sym, subst, ◌∙◌, arith, true, false, ltb,
  ◌==◌, if◌then◌else◌, List, [], ◌∷◌, ◌++◌, ◌⊎◌, inl, inr, Bool-cases, length,
}
use xfutil.Memory.{Mem, store, read, write, Holds}
use xfutil.Memory.Laws.{write-append, read-suc, read-write_self, read-write_apart, length-read}
use xfutil.OwnedString.{memccpy, str_cpy, str_cpy_size}

-- `StrCpy` with both lengths, where the destination has room for all `n` bytes of the source: it
-- writes a zero over the last of them.
pub str_cpy_size_last :
    (mem : Mem) (dst dst_len src n : ℕ)
    → suc n ≤ dst_len
    → read (str_cpy_size mem dst dst_len src (suc n)) dst (suc n) ≡ read mem src n ++ 0 ∷ []
unfolding str_cpy_size
str_cpy_size_last mem dst dst_len src n room =
    let min_len : (if ltb dst_len (suc n) then dst_len else suc n) ≡ suc n = ground arith in
    let at : dst + suc n - 1 ≡ dst + n = omega arith in
    let bytes = read mem src (suc n) in
    rw (min_len, at)
      (read-suc n (store (write mem dst bytes) (dst + n) 0) dst
        ∙ ap₂ (λ (xs : List ℕ) (y : ℕ). xs ++ y ∷ [])
            (kept (write mem dst bytes) ∙ front bytes (read-suc n mem src) (length-read n mem src))
            (last (write mem dst bytes)))
  where
    kept : (m : Mem) → read (store m (dst + n) 0) dst n ≡ read m dst n
    kept m = unfold write in (read-write_apart (0 ∷ []) m dst (dst + n) n (omega arith))

    last : (m : Mem) → store m (dst + n) 0 (dst + n) ≡ 0
    last m = unfold store in ground arith

    front :
        (bytes : List ℕ)
        → bytes ≡ read mem src n ++ mem (src + n) ∷ []
        → length (read mem src n) ≡ n
        → read (write mem dst bytes) dst n ≡ read mem src n
    front bytes e size = rw e (
        rw (write-append (read mem src n) (mem (src + n) ∷ []) mem dst) (
          read-write_apart (mem (src + n) ∷ []) (write mem dst (read mem src n)) dst
            (dst + length (read mem src n)) n (omega (arith, size))
          ∙ read-write_self (read mem src n) mem dst n size))

-- What lies before the destination and behind its length is kept.
memccpy_outside :
    (n : ℕ) (mem : Mem) (dst src q : ℕ)
    → (q < dst) ⊎ (dst + n ≤ q)
    → memccpy mem dst src n q ≡ mem q
unfolding memccpy store
memccpy_outside zero mem dst src q out = refl
memccpy_outside (suc n) mem dst src q out =
    ground (arith, memccpy_outside n (store mem dst (mem src)) (suc dst) (suc src) q)

-- The bytes from the source up to its first zero, at most `n` of them.
abbrev pub text : Mem → ℕ → ℕ → List ℕ
text mem p zero = []
text mem p (suc n) = let rest = text mem (suc p) n in if mem p == 0 then [] else mem p ∷ rest

text-store :
    (n : ℕ) (mem : Mem) (p q b : ℕ)
    → (q < p) ⊎ (p + n ≤ q)
    → text (store mem q b) p n ≡ text mem p n
unfolding store
text-store zero mem p q b out = refl
text-store (suc n) mem p q b out =
    let other : (p == q) ≡ false = ground arith in
    rw (other, text-store n mem (suc p) q b (omega arith)) refl

memccpy_end :
    (n : ℕ) (mem : Mem) (dst src : ℕ)
    → (mem src == 0) ≡ true
    → memccpy mem dst src (suc n) ≡ store mem dst 0
unfolding memccpy
memccpy_end n mem dst src end = rw end refl

memccpy_more :
    (n : ℕ) (mem : Mem) (dst src : ℕ)
    → (mem src == 0) ≡ false
    → memccpy mem dst src (suc n) ≡ memccpy (store mem dst (mem src)) (suc dst) (suc src) n
unfolding memccpy
memccpy_more n mem dst src more = rw more refl

store_twice : (mem : Mem) (p q : ℕ) → store (store mem p 0) q 0 p ≡ 0
unfolding store
store_twice mem p q = ground arith

store_under : (mem : Mem) (p q b : ℕ) → p < q → store mem q b p ≡ mem p
unfolding store
store_under mem p q b h = ground arith

store_at : (mem : Mem) (p b : ℕ) → store mem p b p ≡ b
unfolding store
store_at mem p b = ground arith

str_cpy_loop-text :
    (n : ℕ) (mem : Mem) (dst src : ℕ)
    → (dst + n < src) ⊎ (src + n < dst)
    → Holds (store (memccpy mem dst src (suc n)) (dst + n) 0) dst (text mem src n ++ 0 ∷ [])
str_cpy_loop-text zero mem dst src apart =
    (ap (store (memccpy mem dst src 1) (dst + 0) 0) (omega arith) ∙ store_at _ (dst + 0) 0, tt)
str_cpy_loop-text (suc n) mem dst src apart = elim (Bool-cases (mem src == 0)) [
  | inl end ↦ rw (memccpy_end (suc n) mem dst src end, end) (store_twice mem dst (dst + suc n), tt)
  | inr more ↦
      let next = store mem dst (mem src) in
      let after = memccpy next (suc dst) (suc src) (suc n) in
      let at : suc dst + n ≡ dst + suc n = omega arith in
      let shown : text next (suc src) n ≡ text mem (suc src) n =
        text-store n mem (suc src) dst (mem src) (omega (arith, apart)) in
      let rest = str_cpy_loop-text n next (suc dst) (suc src) (omega (arith, apart)) in
      rw (memccpy_more (suc n) mem dst src more, more)
        (
          store_under after dst (dst + suc n) 0 (omega arith)
              ∙ memccpy_outside (suc n) next (suc dst) (suc src) dst (inl (omega arith))
              ∙ store_at mem dst (mem src),
          subst (λ (bs : List ℕ). Holds (store after (dst + suc n) 0) (suc dst) (bs ++ 0 ∷ []))
              shown
              (subst
                (λ (q : ℕ). Holds (store after q 0) (suc dst) (text next (suc src) n ++ 0 ∷ [])) at
                rest),
        )
]

-- `StrCpy` into a destination of `n` + 1 bytes that does not overlap the first `n` + 1 bytes of the
-- source leaves there the text of the source up to its zero, at most `n` bytes of it, and a zero
-- behind it. A byte outside of the destination keeps its value.
pub str_cpy-text :
    (mem : Mem) (dst n src q : ℕ)
    → (dst + n < src) ⊎ (src + n < dst)
    → (q < dst) ⊎ (dst + suc n ≤ q)
    → Holds (str_cpy mem dst (suc n) src) dst (text mem src n ++ 0 ∷ [])
      × (str_cpy mem dst (suc n) src q ≡ mem q)
unfolding str_cpy
str_cpy-text mem dst n src q apart out =
    let at : dst + suc n - 1 ≡ dst + n = omega arith in
    (
      subst
          (λ (p : ℕ).
            Holds (store (memccpy mem dst src (suc n)) p 0) dst (text mem src n ++ 0 ∷ []))
          (sym at) (str_cpy_loop-text n mem dst src apart),
      beside (memccpy mem dst src (suc n)) ∙ memccpy_outside (suc n) mem dst src q out,
    )
  where
    beside : (m : Mem) → store m (dst + suc n - 1) 0 q ≡ m q
    beside m = unfold store in ground arith
