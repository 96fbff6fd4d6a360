-- ===== src/MemoryBlock/Free.antt =====
-- src/memory_block.cpp: `MemoryFree` on a valid block.
use xfutil.Base.{
  ℕ, suc, ◌+◌, ◌-◌, ◌*◌, ◌%◌, ◌^◌, ◌≤◌, ◌<◌, ◌≡◌, inl, inr, refl, ap, sym, ◌∙◌, subst, arith,
  Bool-cases, true, false, ltb, leb, ◌==◌, if◌then◌else◌, ◌&&◌, ◌||◌, List, [], ◌∷◌, ◌++◌, length,
}
use native.Mathlib.Nat.{div-mul-le_self}
use xfutil.BlockPool.Ownership.{count, count-append, count-cut_le, count-cut_outside}
use xfutil.MemoryBlock.{MemoryBlock, Freed, other, was_full, unused, head_size, free}
use xfutil.MemoryBlock.Valid.{IsSized, capacity, elements, Chain-update, IsValid}

-- An element that is held is inside the block, and not free.
pub held-inside :
    (address block_size element_size x : ℕ)
    → IsSized address block_size element_size
    → 0 < count x (elements address block_size element_size)
    → (address ≤ x) × (x < address + block_size)
held-inside address block_size element_size x s some =
    elim (Bool-cases (leb address x && ltb x (address + block_size))) [
      | inl inside ↦ ground arith
      | inr outside ↦ absurd (
          omega (
            arith,
            some,
            count-cut_outside (capacity block_size element_size) element_size
                (address + (block_size - capacity block_size element_size * element_size)) x s.one
                (λ range. apart outside range),
          ))
    ]
  where
    part : capacity block_size element_size * element_size ≤ block_size - head_size
    part = div-mul-le_self _ _

    apart :
        (leb address x && ltb x (address + block_size)) ≡ false
        → ¬ (
            (address + (block_size - capacity block_size element_size * element_size) ≤ x)
            × (x
                < address
                  + (block_size - capacity block_size element_size * element_size)
                  + element_size * capacity block_size element_size))
    apart outside range = ground (arith, part, range, s.room)

-- What `MemoryFree` reports when `n` elements are left in use.
abbrev pub report : ℕ → ℕ → Freed
report num n = if n == 0 then unused else if n + 1 == num then was_full else other

count_moved :
    (x element : ℕ) (before after : List ℕ)
    → count x (before ++ element ∷ after)
      ≡ (if x == element then 1 else 0) + count x (before ++ after)
count_moved x element before after =
    omega (arith, count-append x before (element ∷ after), count-append x before after)

length_moved :
    (element : ℕ) (before after : List ℕ)
    → length (before ++ element ∷ after) ≡ suc (length (before ++ after))
length_moved element [] after = refl
length_moved element (y ∷ before) after = ap suc (length_moved element before after)

count_self : (x n : ℕ) → (if x == x then 1 else 0) + n ≡ suc n
count_self x n = ground arith

free-IsValid :
    (address block_size element_size : ℕ) (b : MemoryBlock) (xs before after : List ℕ)
    (rest element : ℕ)
    → IsSized address block_size element_size
    → IsValid address block_size element_size b xs (before ++ element ∷ after) rest
    → 0 < element
    → count element xs ≡ 0
    → IsValid address block_size element_size
        (record b {
          links = λ a. if a == element then b.next_element_ptr else b.links a;
          next_element_ptr = element;
          element_used_cnt = (b.element_used_cnt + 2 ^ 16 - 1) % 2 ^ 16;
        })
        (element ∷ xs)
        (before ++ after)
        rest
free-IsValid address block_size element_size b xs before after rest element s v some absent =
    record {
      sizes = v.sizes;
      max_num = v.max_num;
      chain = (
        refl,
        some,
        rw (same element)
            (Chain-update b.links element b.next_element_ptr b.next_element_ptr xs absent v.chain),
      );
      offset = v.offset;
      used = omega (arith, v.used, v.total, s.few, length_moved element before after);
      total = omega (arith, v.total, length_moved element before after);
      shared = λ x. omega (arith, v.shared x, count_moved x element before after);
    }
  where
    same : (x : ℕ) → (x == x) ≡ true
    same x = ground arith

-- The ends of `free` differ in the report only.
reported :
    (P : MemoryBlock → Type 0) (b : MemoryBlock) (used n max num : ℕ)
    → P b
    → used ≡ n
    → max ≡ num
    → (r : MemoryBlock × Freed)
    → r ≡ (if used == 0 then (b, unused) else if used + 1 == max then (b, was_full) else (b, other))
    → P r.0 × (r.1 ≡ report num n)
reported P b used n max num valid used_is max_is r is =
    subst (λ (q : MemoryBlock × Freed). P q.0 × (q.1 ≡ report num n)) (sym is)
      (rw (used_is, max_is)
        (elim (Bool-cases (n == 0)) [
          | inl none ↦ rw none (valid, refl)
          | inr some ↦ elim (Bool-cases (n + 1 == num)) [
            | inl full ↦ rw (some, full) (valid, refl)
            | inr more ↦ rw (some, more) (valid, refl)
          ]
        ]))

pub free-IsValid-report :
    (address block_size element_size : ℕ) (b : MemoryBlock) (xs before after : List ℕ)
    (rest element : ℕ)
    → IsSized address block_size element_size
    → IsValid address block_size element_size b xs (before ++ element ∷ after) rest
    → IsValid address block_size element_size
        (free b element).0
        (element ∷ xs)
        (before ++ after)
        rest
      × ((free b element).1 ≡ report (capacity block_size element_size) (length (before ++ after)))
unfolding free
free-IsValid-report address block_size element_size b xs before after rest element s v =
    let once =
      count-cut_le (capacity block_size element_size) element_size
        (address + (block_size - capacity block_size element_size * element_size)) element s.one in
    let here : count element (before ++ element ∷ after) ≡ suc (count element (before ++ after)) =
      count_moved element element before after ∙ count_self element _ in
    let inside =
      held-inside address block_size element_size element s
        (omega (arith, v.shared element, here)) in
    let valid =
      free-IsValid address block_size element_size b xs before after rest element s v
        (omega (arith, inside.0, s.placed)) (omega (arith, v.shared element, here, once)) in
    let used : (b.element_used_cnt + 2 ^ 16 - 1) % 2 ^ 16 ≡ length (before ++ after) = valid.used in
    let range : (ltb element b.address || leb (b.address + b.block_size) element) ≡ false =
      ground (arith, inside, v.sizes) in
    reported (λ r. IsValid address block_size element_size r (element ∷ xs) (before ++ after) rest)
      _ _ _ _ _ valid used v.max_num (free b element) (rw range refl)
