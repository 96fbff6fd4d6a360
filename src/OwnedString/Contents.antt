-- ===== src/OwnedString/Contents.antt =====
-- src/strutil.cpp: the class `String` as the list of its bytes.
use xfutil.Base.{
  ℕ, zero, suc, ◌+◌, ◌*◌, ◌%◌, ◌^◌, ◌≤◌, ◌<◌, ◌≡◌, refl, ap, ap₂, sym, subst, ◌∙◌, arith, true,
  false, ltb, leb, ◌==◌, if◌then◌else◌, List, ◌∷◌, ◌++◌, take, ◌⊎◌, inl, inr, Bool-cases,
}
use xfutil.Memory.{Mem, read, write}
use xfutil.Memory.Laws.{read-append, read-write_self, read-write_apart, length-read}
use xfutil.OwnedString.{String, After, new, reserve, resize, copy_in, append, clear, assign}

-- The bytes of the string.
abbrev pub contents : Mem → String → List ℕ
contents mem s = read mem s.buf s.size

pub record IsValid (s : String) : Type 0 where
  pub fits : s.size ≤ s.capacity
  pub null : s.buf ≡ 0 → s.capacity ≡ 0
  pub bounds : s.capacity < 2 ^ 64

-- The ranges of `n` bytes from `p` on and of `m` bytes from `q` on have no byte in common.
abbrev pub Apart : ℕ → ℕ → ℕ → ℕ → Type 0
Apart p n q m = (p + n ≤ q) ⊎ (q + m ≤ p)

pub new-IsValid : IsValid new
unfolding new
new-IsValid = record { fits = omega arith; null = λ e. refl; bounds = omega arith }

-- The string has room for `size` bytes, and shows what it showed.
record HasRoom (mem : Mem) (s : String) (size fresh : ℕ) (r : After) : Type 0 where
  done : r.ret ≡ true
  valid : IsValid r.str
  room : size ≤ r.str.capacity
  kept : contents r.mem r.str ≡ contents mem s
  size_is : r.str.size ≡ s.size
  others : (p n : ℕ) → Apart p n fresh s.size → read r.mem p n ≡ read mem p n

read-none : (n : ℕ) (mem mem' : Mem) (p q : ℕ) → n ≡ 0 → read mem p n ≡ read mem' q n
unfolding read
read-none zero mem mem' p q h = refl
read-none (suc n) mem mem' p q h = absurd (omega (arith, h))

-- The new block: the bytes are copied, if there are any.
moved-HasRoom :
    (mem : Mem) (s : String) (size fresh : ℕ)
    → IsValid s
    → size < 2 ^ 64
    → s.capacity < size
    → (fresh == 0) ≡ false
    → HasRoom mem s size fresh (record {
      ret = true;
      mem = if s.buf == 0 then mem else write mem fresh (read mem s.buf s.size);
      str = record s { buf = fresh; capacity = size };
    })
moved-HasRoom mem s size fresh v small less given = record {
  done = refl;
  valid = record { fits = omega (arith, v.fits); null = λ e. ground arith; bounds = small };
  room = omega arith;
  kept = elim (Bool-cases (s.buf == 0)) [
    | inl null ↦
        rw null
          (read-none s.size mem mem fresh s.buf (omega (arith, v.fits, v.null (ground arith))))
    | inr some ↦
        rw some
          (read-write_self (read mem s.buf s.size) mem fresh s.size (length-read s.size mem s.buf))
  ];
  size_is = refl;
  others = λ p n apart. elim (Bool-cases (s.buf == 0)) [
    | inl null ↦ rw null refl
    | inr some ↦ rw some (
        read-write_apart (read mem s.buf s.size) mem p fresh n
          (omega (arith, apart, length-read s.size mem s.buf)))
  ];
}

reserve-HasRoom :
    (mem : Mem) (s : String) (size fresh : ℕ)
    → IsValid s
    → size < 2 ^ 64
    → ((fresh ≡ 0) × (reserve mem s size fresh ≡ record { ret = false; mem = mem; str = s }))
      ⊎ HasRoom mem s size fresh (reserve mem s size fresh)
unfolding reserve
reserve-HasRoom mem s size fresh v small = elim (Bool-cases (leb size s.capacity)) [
  | inl has ↦ rw has (
      inr (record {
        done = refl;
        valid = v;
        room = ground arith;
        kept = refl;
        size_is = refl;
        others = λ p n apart. refl;
      }))
  | inr less ↦ elim (Bool-cases (fresh == 0)) [
    | inl out ↦ rw (less, out) (inl (ground arith, refl))
    | inr given ↦
        rw (less, given) (inr (moved-HasRoom mem s size fresh v small (ground arith) given))
  ]
]

-- The string shows the `n` bytes behind those that it showed.
pub record Appended (mem : Mem) (s : String) (from n : ℕ) (r : After) : Type 0 where
  pub done : r.ret ≡ true
  pub valid : IsValid r.str
  pub shows : contents r.mem r.str ≡ contents mem s ++ read mem from n

copy_in-Appended :
    (mem : Mem) (s : String) (from n size fresh : ℕ) (r : After)
    → HasRoom mem s size fresh r
    → s.size + n ≤ size
    → size < 2 ^ 64
    → Apart from n fresh s.size
    → Appended mem s from n (copy_in r from n)
copy_in-Appended mem s from n size fresh r h fits small apart =
    let total : (r.str.size + n) % 2 ^ 64 ≡ r.str.size + n =
      omega (arith, h.size_is, h.room, fits, small) in
    let new = read r.mem from n in
    let new_size = length-read n r.mem from in
    record {
      done = h.done;
      valid = record {
        fits = omega (arith, h.room, h.size_is, fits);
        null = h.valid.null;
        bounds = h.valid.bounds;
      };
      shows =
          ap (read (write r.mem (r.str.buf + r.str.size) new) r.str.buf) total
          ∙ read-append r.str.size n (write r.mem (r.str.buf + r.str.size) new) r.str.buf
          ∙ ap₂ ◌++◌
              (read-write_apart new r.mem r.str.buf (r.str.buf + r.str.size) r.str.size
                  (omega arith)
                ∙ h.kept)
              (read-write_self new r.mem (r.str.buf + r.str.size) n new_size
                ∙ h.others from n apart);
    }

-- `Append` of `n` bytes that are not the string's own. Either a new block is needed and `malloc` gives
-- null: then it returns false and changes nothing. Or it returns true, and the string is valid and
-- shows the bytes it showed and then the `n` bytes.
pub append-contents :
    (mem : Mem) (s : String) (from n fresh : ℕ)
    → IsValid s
    → n + s.capacity * 2 < 2 ^ 64
    → Apart from n s.buf s.capacity
    → Apart from n fresh s.size
    → ((fresh ≡ 0) × (append mem s from n fresh ≡ record { ret = false; mem = mem; str = s }))
      ⊎ Appended mem s from n (append mem s from n fresh)
unfolding append
append-contents mem s from n fresh v small own apart =
    elim (Bool-cases (ltb s.capacity ((s.size + n) % 2 ^ 64))) [
      | inl more ↦
          let size : (n + s.capacity * 2) % 2 ^ 64 ≡ n + s.capacity * 2 = omega (arith, small) in
          let grown = reserve mem s ((n + s.capacity * 2) % 2 ^ 64) fresh in
          elim (reserve-HasRoom mem s ((n + s.capacity * 2) % 2 ^ 64) fresh v (omega arith)) [
            | inl out ↦ rw (more, out.1) (inl (out.0, refl))
            | inr h ↦
                let ends : append mem s from n fresh ≡ copy_in grown from n =
                  rw more (ap (λ b. if b then copy_in grown from n else grown) h.done) in
                inr (
                  subst (Appended mem s from n) (sym ends) (
                    copy_in-Appended mem s from n ((n + s.capacity * 2) % 2 ^ 64) fresh grown h
                      (omega (arith, v.fits, size)) (omega arith) apart))
          ]
      | inr fits ↦ rw fits (
          inr (
            copy_in-Appended mem s from n s.capacity fresh
              (record { ret = true; mem = mem; str = s })
              (record {
                done = refl;
                valid = v;
                room = omega arith;
                kept = refl;
                size_is = refl;
                others = λ p k a. refl;
              })
              (within (s.size + n) s.capacity fits (omega (arith, v.fits, small))) v.bounds apart))
    ]
  where
    within : (a c : ℕ) → ltb c (a % 2 ^ 64) ≡ false → a < 2 ^ 64 → a ≤ c
    within a c h small = ground arith

-- `Assign` of bytes that are not the string's own: as `Append` to an empty string.
pub assign-contents :
    (mem : Mem) (s : String) (from n fresh : ℕ)
    → IsValid s
    → n + s.capacity * 2 < 2 ^ 64
    → Apart from n s.buf s.capacity
    → Apart from n fresh 0
    → ((fresh ≡ 0) × (assign mem s from n fresh ≡ record { ret = false; mem = mem; str = clear s }))
      ⊎ Appended mem (clear s) from n (assign mem s from n fresh)
unfolding assign clear
assign-contents mem s from n fresh v small own apart =
    append-contents mem (clear s) from n fresh
      (record { fits = omega arith; null = v.null; bounds = v.bounds }) small own apart

take-read : (k n : ℕ) (mem : Mem) (p : ℕ) → take k (read mem p n) ≡ take n (read mem p k)
unfolding read
take-read zero zero mem p = refl
take-read zero (suc n) mem p = refl
take-read (suc k) zero mem p = refl
take-read (suc k) (suc n) mem p = ap (λ (bs : List ℕ). mem p ∷ bs) (take-read k n mem (suc p))

-- The string has the size, and the bytes that it had are kept as far as it reaches.
pub record Resized (mem : Mem) (s : String) (size : ℕ) (r : After) : Type 0 where
  pub done : r.ret ≡ true
  pub valid : IsValid r.str
  pub size_is : r.str.size ≡ size
  pub kept : take size (contents mem s) ≡ take s.size (contents r.mem r.str)

set_size-Resized :
    (mem : Mem) (s : String) (size fresh : ℕ) (r : After)
    → HasRoom mem s size fresh r
    → Resized mem s size (record r { str = record r.str { size = size } })
set_size-Resized mem s size fresh r h = record {
  done = h.done;
  valid = record { fits = h.room; null = h.valid.null; bounds = h.valid.bounds };
  size_is = refl;
  kept =
      ap (take size) (sym h.kept ∙ ap (read r.mem r.str.buf) h.size_is)
      ∙ take-read size s.size r.mem r.str.buf;
}

-- `Resize` of a valid string: either it needs a new block and `malloc` gives null, and it returns false
-- and changes nothing; or it returns true and leaves a valid string of the size, whose first bytes are
-- the old ones, as many as both sizes have.
pub resize-contents :
    (mem : Mem) (s : String) (size fresh : ℕ)
    → IsValid s
    → size < 2 ^ 64
    → ((fresh ≡ 0) × (resize mem s size fresh ≡ record { ret = false; mem = mem; str = s }))
      ⊎ Resized mem s size (resize mem s size fresh)
unfolding resize
resize-contents mem s size fresh v small = elim (reserve-HasRoom mem s size fresh v small) [
  | inl out ↦ rw out.1 (inl (out.0, refl))
  | inr h ↦
      let r = reserve mem s size fresh in
      let ends : resize mem s size fresh ≡ record r { str = record r.str { size = size } } =
        ap (λ b. if b then record r { str = record r.str { size = size } } else r) h.done in
      inr (subst (Resized mem s size) (sym ends) (set_size-Resized mem s size fresh r h))
]
