-- ===== src/Pack/Blocks.antt =====
-- src/pack.cpp: blocks that hold the values that `Pack` put there.
use xfutil.Base.{
  ℕ, suc, ◌+◌, ◌-◌, ◌%◌, ◌^◌, ◌≤◌, ◌<◌, ◌≡◌, ◌⊎◌, refl, ap, sym, ◌∙◌, subst, arith, List, [], ◌∷◌,
  ◌++◌, append-nil, append_assoc, All, length, length-append,
}
use xfutil.Memory.{Mem, write, Holds}
use xfutil.Memory.Laws.{write-Holds, Holds-write}
use xfutil.Coding.Varint.Encode.{varint}
use xfutil.Pack.{Block, Packer, advance}
use xfutil.Queue.Runs.{Among, here, there}

-- The bytes of values.
abbrev pub bytes : List ℕ → List ℕ
bytes [] = []
bytes (v ∷ vs) = varint v ++ bytes vs

pub bytes-append : (vs ws : List ℕ) → bytes (vs ++ ws) ≡ bytes vs ++ bytes ws
bytes-append [] ws = refl
bytes-append (v ∷ vs) ws =
    ap (◌++◌ (varint v)) (bytes-append vs ws) ∙ sym (append_assoc (varint v) (bytes vs) (bytes ws))

-- Two blocks of `n` bytes have no byte in common.
abbrev pub Apart : ℕ → ℕ → ℕ → Type 0
Apart n a b = (a + n ≤ b) ⊎ (b + n ≤ a)

pub All-Among : (P : ℕ → Type 0) (x : ℕ) (xs : List ℕ) → All P xs → Among x xs → P x
All-Among P x [] ps among = elim among [ ]
All-Among P x (y ∷ ys) (p, ps) (here same) = subst P (sym same) p
All-Among P x (y ∷ ys) (p, ps) (there among) = All-Among P x ys ps among

-- A block of `n` bytes that holds the values.
pub record Filled (n : ℕ) (mem : Mem) (b : Block) (vs : List ℕ) : Type 0 where
  pub capacity : b.capacity ≡ n
  pub size : b.size ≡ length (bytes vs)
  pub fits : b.size ≤ n
  pub held : Holds mem b.buf (bytes vs)

Filled-write :
    (n : ℕ) (mem : Mem) (b : Block) (vs bs : List ℕ) (p : ℕ)
    → (b.buf + n ≤ p) ⊎ (p + length bs ≤ b.buf)
    → Filled n mem b vs
    → Filled n (write mem p bs) b vs
Filled-write n mem b vs bs p apart f = record {
  capacity = f.capacity;
  size = f.size;
  fits = f.fits;
  held = Holds-write (bytes vs) bs mem b.buf p (omega (arith, apart, f.size, f.fits)) f.held;
}

-- The blocks before the current one, which lies at `buf`, each with the values that it holds.
abbrev pub FullBlocks : ℕ → Mem → List ℕ → ℕ → List Block → List (List ℕ) → Type 0
FullBlocks n mem used buf [] [] = Unit
FullBlocks n mem used buf [] (vs ∷ vss) = ⊥
FullBlocks n mem used buf (b ∷ bs) [] = ⊥
FullBlocks n mem used buf (b ∷ bs) (vs ∷ vss) =
    Filled n mem b vs
    × (0 < length (bytes vs))
    × Among b.buf used
    × Apart n b.buf buf
    × FullBlocks n mem used buf bs vss

-- The packer's blocks have `n` bytes each, and hold the values; `used` are the addresses given so far.
pub record Packed (n : ℕ) (mem : Mem) (used : List ℕ) (p : Packer) (vss : List (List ℕ))
    (vs : List ℕ) : Type 0 where
  pub ptr : p.ptr ≡ p.block.buf + p.block.size
  pub current : Filled n mem p.block vs
  pub listed : Among p.block.buf used
  pub full : FullBlocks n mem used p.block.buf p.full vss

Holds-join :
    (xs ys : List ℕ) (mem : Mem) (p : ℕ)
    → Holds mem p xs
    → Holds mem (p + length xs) ys
    → Holds mem p (xs ++ ys)
Holds-join [] ys mem p h h' = subst (λ q. Holds mem q ys) (omega arith) h'
Holds-join (x ∷ xs) ys mem p (h, hs) h' =
    (h, Holds-join xs ys mem (suc p) hs (subst (λ q. Holds mem q ys) (omega arith) h'))

pub FullBlocks-write :
    (n : ℕ) (mem : Mem) (used : List ℕ) (buf : ℕ) (bs : List Block) (vss : List (List ℕ))
    (ws : List ℕ) (p : ℕ)
    → buf ≤ p
    → p + length ws ≤ buf + n
    → FullBlocks n mem used buf bs vss
    → FullBlocks n (write mem p ws) used buf bs vss
FullBlocks-write n mem used buf [] [] ws p lo hi f = tt
FullBlocks-write n mem used buf [] (vs ∷ vss) ws p lo hi f = elim f [ ]
FullBlocks-write n mem used buf (b ∷ bs) [] ws p lo hi f = elim f [ ]
FullBlocks-write n mem used buf (b ∷ bs) (vs ∷ vss) ws p lo hi (f, some_bytes, among, apart, rest) =
    (
      Filled-write n mem b vs ws p (omega (arith, apart, lo, hi)) f,
      some_bytes,
      among,
      apart,
      FullBlocks-write n mem used buf bs vss ws p lo hi rest,
    )

-- A value behind the others in the current block.
pub put-Packed :
    (n : ℕ) (mem : Mem) (used : List ℕ) (p : Packer) (vss : List (List ℕ)) (vs : List ℕ) (v : ℕ)
    → n < 2 ^ 31
    → p.block.size + length (varint v) ≤ n
    → Packed n mem used p vss vs
    → Packed n
        (write mem p.ptr (varint v))
        used
        (advance p (p.ptr + length (varint v)))
        vss
        (vs ++ v ∷ [])
unfolding advance
put-Packed n mem used p vss vs v small room s =
    let sum : bytes (vs ++ v ∷ []) ≡ bytes vs ++ varint v =
      bytes-append vs (v ∷ []) ∙ ap (◌++◌ (bytes vs)) (append-nil (varint v)) in
    let size : (p.block.size + (p.ptr + length (varint v) - p.ptr)) % 2 ^ 32
        ≡ p.block.size + length (varint v) =
      omega (arith, small, room) in
    let at : p.block.buf + length (bytes vs) ≡ p.ptr = omega (arith, s.ptr, s.current.size) in
    record {
      ptr = rw size (omega (arith, s.ptr));
      current = record {
        capacity = s.current.capacity;
        size = rw (size, sum) (omega (arith, s.current.size, length-append (bytes vs) (varint v)));
        fits = rw size room;
        held = rw sum (
            Holds-join (bytes vs) (varint v) (write mem p.ptr (varint v)) p.block.buf
              (Holds-write (bytes vs) (varint v) mem p.block.buf p.ptr (omega (arith, at))
                s.current.held)
              (rw at (write-Holds (varint v) mem p.ptr)));
      };
      listed = s.listed;
      full =
          FullBlocks-write n mem used p.block.buf p.full vss (varint v) p.ptr (omega (arith, s.ptr))
            (omega (arith, s.ptr, room)) s.full;
    }
