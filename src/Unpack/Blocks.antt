-- ===== src/Unpack/Blocks.antt =====
-- src/unpack.cpp: `Unpack` of the values that blocks hold.
use xfutil.Base.{
  ℕ, zero, suc, ◌+◌, ◌^◌, ◌<◌, ◌≡◌, refl, ap, ◌∙◌, arith, true, false, if◌then◌else◌, le→leb,
  lt→leb_false, List, [], ◌∷◌, ◌++◌, All, length, length-append, get_elem?, Option, none, some,
}
use xfutil.Memory.{Mem, Holds}
use xfutil.Memory.Laws.{Holds-append}
use xfutil.Coding.Varint.Encode.{varint, length-groups}
use xfutil.Coding.Varint.Decode.{decode_varint-Holds}
use xfutil.Pack.{Block}
use xfutil.Pack.Blocks.{bytes, Filled, FullBlocks}
use xfutil.Pack.Sequence.{concat}
use xfutil.Unpack.{Unpacker, Unpacked, next_block, unpack_with, unpack_u64}
use xfutil.Unpack

abbrev pub cons_value : ℕ → Option (List ℕ) → Option (List ℕ)
cons_value v none = none
cons_value v (some vs) = some (v ∷ vs)

-- As many values unpacked, one after the other; `none` if one call returns false.
abbrev pub unpack_all : Mem → ℕ → List Block → ℕ → Unpacker → Option (List ℕ)
unpack_all mem empty blocks zero u = some []
unpack_all mem empty blocks (suc k) u =
    let r = unpack_u64 mem empty blocks 0 u in
    let rest = unpack_all mem empty blocks k r.unpacker in
    if r.ret then cons_value r.v rest else none

-- The unpacker stands before the bytes of the values in its block, which they end.
record Reads (mem : Mem) (u : Unpacker) (vs : List ℕ) : Type 0 where
  held : Holds mem u.ptr (bytes vs)
  ends : u.buf_end ≡ u.ptr + length (bytes vs)

-- The blocks that come next, with their values.
abbrev pub Blocks : ℕ → Mem → List Block → List (List ℕ) → Type 0
Blocks n mem [] [] = Unit
Blocks n mem [] (vs ∷ vss) = ⊥
Blocks n mem (b ∷ bs) [] = ⊥
Blocks n mem (b ∷ bs) (vs ∷ vss) = Filled n mem b vs × Blocks n mem bs vss

unpack_here :
    (mem : Mem) (empty : ℕ) (blocks : List Block) (u : Unpacker) (v : ℕ) (vs : List ℕ)
    → v < 2 ^ 64
    → Reads mem u (v ∷ vs)
    → (unpack_u64 mem empty blocks 0 u
        ≡ record { ret = true; unpacker = record u { ptr = u.ptr + length (varint v) }; v = v })
      × Reads mem (record u { ptr = u.ptr + length (varint v) }) vs
unfolding unpack_u64 unpack_with
unpack_here mem empty blocks u v vs hv r =
    let sum = length-append (varint v) (bytes vs) in
    let held = Holds-append (varint v) (bytes vs) mem u.ptr r.held in
    let more = lt→leb_false u.buf_end u.ptr (omega (arith, r.ends, sum, (length-groups 9 v).0)) in
    let reads = decode_varint-Holds mem u.ptr u.buf_end v hv (omega (arith, r.ends, sum)) held.0 in
    (rw (more, reads) refl, record { held = held.1; ends = omega (arith, r.ends, sum) })

-- In the next block, behind its first value.
abbrev in_block : Unpacker → Block → ℕ → Unpacker
in_block u b v = record {
  next = suc u.next;
  ptr = b.buf + length (varint v);
  buf_end = b.buf + b.size;
}

next_block-some :
    (empty : ℕ) (blocks : List Block) (u : Unpacker) (b : Block)
    → get_elem? blocks u.next ≡ some b
    → next_block empty blocks u
      ≡ (true, record { next = suc u.next; ptr = b.buf; buf_end = b.buf + b.size })
unfolding next_block
next_block-some empty blocks u b at =
    ap
      (λ o. elim o [
        | none ↦ (false, record { next = suc u.next; ptr = empty; buf_end = empty })
        | some c ↦ (true, record { next = suc u.next; ptr = c.buf; buf_end = c.buf + c.size })
      ])
      at

-- At the end of a block, the next one is read.
unpack_next :
    (n : ℕ) (mem : Mem) (empty : ℕ) (blocks : List Block) (u : Unpacker) (b : Block) (v : ℕ)
    (vs : List ℕ)
    → v < 2 ^ 64
    → Reads mem u []
    → get_elem? blocks u.next ≡ some b
    → Filled n mem b (v ∷ vs)
    → (unpack_u64 mem empty blocks 0 u ≡ record { ret = true; unpacker = in_block u b v; v = v })
      × Reads mem (in_block u b v) vs
unfolding unpack_u64 unpack_with
unpack_next n mem empty blocks u b v vs hv r at f =
    let sum = length-append (varint v) (bytes vs) in
    let held = Holds-append (varint v) (bytes vs) mem b.buf f.held in
    let done = le→leb u.buf_end u.ptr (omega (arith, r.ends)) in
    let reads =
      decode_varint-Holds mem b.buf (b.buf + b.size) v hv (omega (arith, f.size, sum)) held.0 in
    (
      rw (done, next_block-some empty blocks u b at, reads) refl,
      record { held = held.1; ends = omega (arith, f.size, sum) },
    )

-- Only the last blocks have no value.
abbrev pub NoGap : List (List ℕ) → Type 0
NoGap [] = Unit
NoGap ([] ∷ vss) = concat vss ≡ []
NoGap ((v ∷ vs) ∷ vss) = NoGap vss

unpack_all-nil :
    (mem : Mem) (empty : ℕ) (blocks : List Block) (u : Unpacker) (vs : List ℕ)
    → vs ≡ []
    → unpack_all mem empty blocks (length vs) u ≡ some vs
unpack_all-nil mem empty blocks u [] h = refl
unpack_all-nil mem empty blocks u (v ∷ vs) h = absurd (omega (arith, ap length h))

module _ (n : ℕ) (mem : Mem) (empty : ℕ) (blocks : List Block) where
  unpack_all-Blocks :
      (u : Unpacker) (vs : List ℕ) (bs : List Block) (vss : List (List ℕ))
      → All (λ v. v < 2 ^ 64) (vs ++ concat vss)
      → Reads mem u vs
      → ((i : ℕ) → get_elem? blocks (u.next + i) ≡ get_elem? bs i)
      → Blocks n mem bs vss
      → NoGap vss
      → unpack_all mem empty blocks (length (vs ++ concat vss)) u ≡ some (vs ++ concat vss)
  unpack_all-Blocks u (v ∷ vs) bs vss (hv, hvs) r at f gap =
      let (here, next) = unpack_here mem empty blocks u v vs hv r in
      rw here (
        ap (cons_value v) (
          unpack_all-Blocks (record u { ptr = u.ptr + length (varint v) }) vs bs vss hvs next at f
            gap))
  unpack_all-Blocks u [] bs [] h r at f gap = refl
  unpack_all-Blocks u [] [] (vs ∷ vss) h r at f gap = elim f [ ]
  unpack_all-Blocks u [] (b ∷ bs) ([] ∷ vss) h r at f gap =
      unpack_all-nil mem empty blocks u (concat vss) gap
  unpack_all-Blocks u [] (b ∷ bs) ((v ∷ vs) ∷ vss) (hv, hvs) r at (f, fs) gap =
      let now : get_elem? blocks u.next ≡ some b = ap (get_elem? blocks) (omega arith) ∙ at 0 in
      let (here, next) = unpack_next n mem empty blocks u b v vs hv r now f in
      rw here (
        ap (cons_value v) (
          unpack_all-Blocks (in_block u b v) vs bs vss hvs next
            (λ i. ap (get_elem? blocks) (omega arith) ∙ at (suc i)) fs gap))

pub Blocks-full :
    (n : ℕ) (mem : Mem) (used : List ℕ) (buf : ℕ) (bs : List Block) (vss : List (List ℕ))
    (b : Block) (vs : List ℕ)
    → FullBlocks n mem used buf bs vss
    → Filled n mem b vs
    → Blocks n mem (bs ++ b ∷ []) (vss ++ vs ∷ []) × NoGap (vss ++ vs ∷ [])
Blocks-full n mem used buf [] [] b [] f last = ((last, tt), refl)
Blocks-full n mem used buf [] [] b (v ∷ vs) f last = ((last, tt), tt)
Blocks-full n mem used buf [] (ws ∷ wss) b vs f last = elim f [ ]
Blocks-full n mem used buf (c ∷ bs) [] b vs f last = elim f [ ]
Blocks-full n mem used buf (c ∷ bs) ([] ∷ wss) b vs (g, nonempty, among, apart, rest) last =
    absurd (omega (arith, nonempty))
Blocks-full n mem used buf (c ∷ bs) ((w ∷ ws) ∷ wss) b vs (g, nonempty, among, apart, rest) last =
    let (fs, gap) = Blocks-full n mem used buf bs wss b vs rest last in ((g, fs), gap)

pub unpack_new :
    (n : ℕ) (mem : Mem) (empty : ℕ) (bs : List Block) (vss : List (List ℕ))
    → All (λ v. v < 2 ^ 64) (concat vss)
    → Blocks n mem bs vss
    → NoGap vss
    → unpack_all mem empty bs (length (concat vss)) (Unpack.new empty bs) ≡ some (concat vss)
unfolding Unpack.new next_block
unpack_new n mem empty [] [] h f gap = refl
unpack_new n mem empty [] (vs ∷ vss) h f gap = elim f [ ]
unpack_new n mem empty (b ∷ bs) [] h f gap = elim f [ ]
unpack_new n mem empty (b ∷ bs) ([] ∷ vss) h (f, fs) gap =
    unpack_all-nil mem empty (b ∷ bs) _ (concat vss) gap
unpack_new n mem empty (b ∷ bs) ((v ∷ vs) ∷ vss) h (f, fs) gap =
    unpack_all-Blocks n mem empty (b ∷ bs)
      (record { next = 1; ptr = b.buf; buf_end = b.buf + b.size }) (v ∷ vs) bs vss h
      (record { held = f.held; ends = ap (◌+◌ b.buf) f.size }) (λ i. shift i) fs gap
  where
    shift : (i : ℕ) → get_elem? (b ∷ bs) (1 + i) ≡ get_elem? bs i
    shift i = let one : 1 + i ≡ suc i = omega arith in ap (get_elem? (b ∷ bs)) one
