-- ===== src/Pack/Sequence.antt =====
-- src/pack.cpp: the blocks that any sequence of `Pack` of a `uint64_t` leaves.
use xfutil.Base.{
  ℕ, ◌+◌, ◌%◌, ◌^◌, ◌≤◌, ◌<◌, ◌≡◌, inl, inr, refl, ap, sym, ◌∙◌, arith, Bool-cases, ltb, ltb→lt,
  ltb_false→le, le→leb, List, [], ◌∷◌, ◌++◌, append-nil, append_assoc, All, length,
}
use native.Mathlib.Nat.{mod-eq_of_lt}
use xfutil.Memory.{Mem, write}
use xfutil.Coding.Varint.Encode.{varint, encode_varint-write, length-groups}
use xfutil.Pack.{Block, Packer, alloc_block, new, make_room, pack_varint, pack_u64}
use xfutil.Queue.Runs.{Among, here, there}
use xfutil.Pack.Blocks.{bytes, Apart, All-Among, Filled, FullBlocks, Packed, put-Packed}

FullBlocks-append :
    (n : ℕ) (mem : Mem) (used : List ℕ) (buf fresh : ℕ) (bs : List Block) (vss : List (List ℕ))
    (b : Block) (vs : List ℕ)
    → All (λ a. Apart n a fresh) used
    → Filled n mem b vs
    → 0 < length (bytes vs)
    → Among b.buf used
    → FullBlocks n mem used buf bs vss
    → FullBlocks n mem (fresh ∷ used) fresh (bs ++ b ∷ []) (vss ++ vs ∷ [])
FullBlocks-append n mem used buf fresh [] [] b vs apart f some_bytes among full =
    (f, some_bytes, there among, All-Among (λ a. Apart n a fresh) b.buf used apart among, tt)
FullBlocks-append n mem used buf fresh [] (ws ∷ wss) b vs apart f some_bytes among full =
    elim full [ ]
FullBlocks-append n mem used buf fresh (c ∷ bs) [] b vs apart f some_bytes among full =
    elim full [ ]
FullBlocks-append n mem used buf fresh (c ∷ bs) (ws ∷ wss) b vs apart f some_bytes among
      (g, nonempty, listed, _, rest) =
    (
      g,
      nonempty,
      there listed,
      All-Among (λ a. Apart n a fresh) c.buf used apart listed,
      FullBlocks-append n mem used buf fresh bs wss b vs apart f some_bytes among rest,
    )

-- The current block is full, and a new one takes its place.
renew-Packed :
    (n : ℕ) (mem : Mem) (used : List ℕ) (fresh : ℕ) (p : Packer) (vss : List (List ℕ)) (vs : List ℕ)
    → All (λ a. Apart n a fresh) used
    → 0 < p.block.size
    → Packed n mem used p vss vs
    → Packed n mem
        (fresh ∷ used)
        (record {
          full = p.full ++ p.block ∷ [];
          block = record { buf = fresh; capacity = n; size = 0 };
          ptr = fresh;
        })
        (vss ++ vs ∷ [])
        []
renew-Packed n mem used fresh p vss vs apart some_bytes s = record {
  ptr = omega arith;
  current = record { capacity = refl; size = refl; fits = omega arith; held = tt };
  listed = here refl;
  full =
      FullBlocks-append n mem used p.block.buf fresh p.full vss p.block vs apart s.current
        (omega (arith, some_bytes, s.current.size)) s.listed s.full;
}

-- The values of all blocks.
abbrev pub concat : List (List ℕ) → List ℕ
concat [] = []
concat (vs ∷ vss) = vs ++ concat vss

pub concat-append : (vss wss : List (List ℕ)) → concat (vss ++ wss) ≡ concat vss ++ concat wss
concat-append [] wss = refl
concat-append (vs ∷ vss) wss =
    ap (◌++◌ vs) (concat-append vss wss) ∙ sym (append_assoc vs (concat vss) (concat wss))

-- A packer that has packed the values `all`.
pub record HasPacked (n : ℕ) (mem : Mem) (used : List ℕ) (p : Packer) (all : List ℕ) : Type 0 where
  pub vss : List (List ℕ)
  pub vs : List ℕ
  pub packed : Packed n mem used p vss vs
  pub values : concat vss ++ vs ≡ all

FullBlocks-used :
    (n : ℕ) (mem : Mem) (used : List ℕ) (buf a : ℕ) (bs : List Block) (vss : List (List ℕ))
    → FullBlocks n mem used buf bs vss
    → FullBlocks n mem (a ∷ used) buf bs vss
FullBlocks-used n mem used buf a [] [] f = tt
FullBlocks-used n mem used buf a [] (vs ∷ vss) f = elim f [ ]
FullBlocks-used n mem used buf a (b ∷ bs) [] f = elim f [ ]
FullBlocks-used n mem used buf a (b ∷ bs) (vs ∷ vss) (f, some_bytes, among, apart, rest) =
    (f, some_bytes, there among, apart, FullBlocks-used n mem used buf a bs vss rest)

Packed-used :
    (n : ℕ) (mem : Mem) (used : List ℕ) (a : ℕ) (p : Packer) (vss : List (List ℕ)) (vs : List ℕ)
    → Packed n mem used p vss vs
    → Packed n mem (a ∷ used) p vss vs
Packed-used n mem used a p vss vs s = record {
  ptr = s.ptr;
  current = s.current;
  listed = there s.listed;
  full = FullBlocks-used n mem used p.block.buf a p.full vss s.full;
}

-- `Pack` of a value, which has it behind the others.
pub pack_u64-HasPacked :
    (n fresh : ℕ) (mem : Mem) (used : List ℕ) (p : Packer) (all : List ℕ) (v : ℕ)
    → 10 ≤ n
    → n < 2 ^ 31
    → v < 2 ^ 64
    → All (λ a. Apart n a fresh) used
    → HasPacked n mem used p all
    → (let r = pack_u64 (record { block_size = n; fresh = fresh }) mem p v in
        HasPacked n r.0 (fresh ∷ used) r.1 (all ++ v ∷ []))
unfolding pack_u64 pack_varint make_room alloc_block
pack_u64-HasPacked n fresh mem used p all v large small hv apart h =
    let s = h.packed in
    let wrap : (p.block.size + 10) % 2 ^ 32 ≡ p.block.size + 10 =
      mod-eq_of_lt (omega (arith, s.current.fits, small)) in
    let len = length-groups 9 v in
    elim (Bool-cases (ltb p.block.capacity (p.block.size + 10))) [
      | inl more ↦
          let renewed =
            renew-Packed n mem used fresh p h.vss h.vs apart
              (omega (arith, ltb→lt _ _ more, s.current.capacity, large)) s in
          rw (wrap, more, le→leb 10 n large, encode_varint-write mem fresh v hv)
            (record {
              vss = h.vss ++ h.vs ∷ [];
              vs = v ∷ [];
              packed =
                  put-Packed n mem (fresh ∷ used) _ (h.vss ++ h.vs ∷ []) [] v small
                    (omega (arith, len, large)) renewed;
              values =
                  ap (λ (xs : List ℕ). xs ++ v ∷ [])
                    (concat-append h.vss (h.vs ∷ [])
                      ∙ ap (◌++◌ (concat h.vss)) (append-nil h.vs)
                      ∙ h.values);
            })
      | inr room ↦
          rw (wrap, room, encode_varint-write mem p.ptr v hv)
            (record {
              vss = h.vss;
              vs = h.vs ++ v ∷ [];
              packed =
                  Packed-used n (write mem p.ptr (varint v)) used fresh _ h.vss (h.vs ++ v ∷ []) (
                    put-Packed n mem used p h.vss h.vs v small
                      (omega (arith, len, ltb_false→le _ _ room, s.current.capacity)) s);
              values =
                  sym (append_assoc (concat h.vss) h.vs (v ∷ []))
                  ∙ ap (λ (xs : List ℕ). xs ++ v ∷ []) h.values;
            })
    ]

pub new-HasPacked :
    (n start : ℕ) (mem : Mem)
    → 10 ≤ n
    → HasPacked n mem (start ∷ []) (new (record { block_size = n; fresh = start })) []
unfolding new alloc_block
new-HasPacked n start mem large = rw (le→leb 1 n (omega (arith, large))) record {
  vss = [];
  vs = [];
  packed = record {
    ptr = omega arith;
    current = record { capacity = refl; size = refl; fits = omega arith; held = tt };
    listed = here refl;
    full = tt;
  };
  values = refl;
}
