-- ===== src/MemoryBlock/Valid.antt =====
-- src/memory_block.cpp: what holds of a block between two calls.
use xfutil.Base.{
  ℕ, ◌+◌, ◌-◌, ◌*◌, ◌/◌, ◌%◌, ◌^◌, ◌≤◌, ◌<◌, ◌≡◌, refl, arith, false, ◌==◌, if◌then◌else◌, List, [],
  ◌∷◌, length,
}
use native.Mathlib.Nat.{div-mul-le_self}
use xfutil.BlockPool.{cut}
use xfutil.BlockPool.Ownership.{count}
use xfutil.MemoryBlock.{MemoryBlock, head_size, init}

-- The block's sizes: at least one element, sizes that fit their fields, and an address that is not null.
pub record IsSized (address block_size element_size : ℕ) : Type 0 where
  pub placed : 0 < address
  pub one : 0 < element_size
  pub room : head_size + element_size ≤ block_size
  pub fits : block_size < 2 ^ 32
  pub few : (block_size - head_size) / element_size < 2 ^ 16

-- The number of elements, and their addresses.
abbrev pub capacity : ℕ → ℕ → ℕ
capacity block_size element_size = (block_size - head_size) / element_size

abbrev pub elements : ℕ → ℕ → ℕ → List ℕ
elements address block_size element_size =
    cut (capacity block_size element_size) element_size
      (address + (block_size - capacity block_size element_size * element_size))

-- The free elements, from a pointer on.
abbrev pub Chain : (ℕ → ℕ) → ℕ → List ℕ → Type 0
Chain links p [] = p ≡ 0
Chain links p (x ∷ xs) = (p ≡ x) × (0 < x) × Chain links (links x) xs

pub Chain-update :
    (links : ℕ → ℕ) (element q p : ℕ) (xs : List ℕ)
    → count element xs ≡ 0
    → Chain links p xs
    → Chain (λ a. if a == element then q else links a) p xs
Chain-update links element q p [] absent c = c
Chain-update links element q p (x ∷ xs) absent c =
    let differ : (x == element) ≡ false = ground (arith, absent) in
    (c.0, c.1, rw differ (Chain-update links element q (links x) xs (omega (arith, absent)) c.2))

-- `xs` are the free elements and `rest` the number of elements that were never used.
pub record IsValid (address block_size element_size : ℕ) (b : MemoryBlock) (xs held : List ℕ)
    (rest : ℕ) : Type 0 where
  pub sizes : (b.address ≡ address) × (b.block_size ≡ block_size) × (b.element_size ≡ element_size)
  pub max_num : b.max_element_num ≡ capacity block_size element_size
  pub chain : Chain b.links b.next_element_ptr xs
  pub offset : b.next_element_offset + rest * element_size ≡ block_size
  pub used : b.element_used_cnt ≡ length held
  pub total : length xs + (length held + rest) ≡ capacity block_size element_size
  pub shared :
      (x : ℕ)
      → count x xs
          + (count x held + count x (cut rest element_size (address + b.next_element_offset)))
        ≡ count x (elements address block_size element_size)

init_num :
    (address block_size element_size : ℕ)
    → IsSized address block_size element_size
    → (block_size + 2 ^ 64 - head_size) % 2 ^ 64 / element_size % 2 ^ 16
      ≡ capacity block_size element_size
init_num address block_size element_size s =
    let size : (block_size + 2 ^ 64 - head_size) % 2 ^ 64 ≡ block_size - head_size =
      omega (arith, s.room, s.fits) in
    rw size (few_mod (capacity block_size element_size) s.few)
  where
    few_mod : (n : ℕ) → n < 2 ^ 16 → n % 2 ^ 16 ≡ n
    few_mod n h = omega arith

offset_is :
    (block_size part : ℕ)
    → part ≤ block_size - head_size
    → block_size < 2 ^ 32
    → head_size ≤ block_size
    → (block_size + 2 ^ 32 - part % 2 ^ 32) % 2 ^ 32 ≡ block_size - part
offset_is block_size part h fits room = omega arith

init_offset :
    (address block_size element_size : ℕ)
    → IsSized address block_size element_size
    → (block_size + 2 ^ 32 - capacity block_size element_size * element_size % 2 ^ 32) % 2 ^ 32
      ≡ block_size - capacity block_size element_size * element_size
init_offset address block_size element_size s =
    offset_is block_size (capacity block_size element_size * element_size) (div-mul-le_self _ _)
      s.fits (omega (arith, s.room))

pub init-IsValid :
    (links : ℕ → ℕ) (address block_size element_size : ℕ)
    → IsSized address block_size element_size
    → IsValid address block_size element_size
        (init links address block_size element_size)
        []
        []
        (capacity block_size element_size)
unfolding init
init-IsValid links address block_size element_size s =
    let num = init_num address block_size element_size s in
    let off = init_offset address block_size element_size s in
    record {
      sizes = (refl, refl, refl);
      max_num = num;
      chain = refl;
      offset =
          rw (num, off)
            (le_sub (capacity block_size element_size * element_size) block_size
              (inside block_size _ (div-mul-le_self _ _)));
      used = refl;
      total = omega arith;
      shared = λ x. rw (num, off) (omega arith);
    }
  where
    le_sub : (part whole : ℕ) → part ≤ whole → whole - part + part ≡ whole
    le_sub part whole h = omega arith

    inside : (whole part : ℕ) → part ≤ whole - head_size → part ≤ whole
    inside whole part h = omega arith
