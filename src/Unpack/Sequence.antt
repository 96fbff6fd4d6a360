-- ===== src/Unpack/Sequence.antt =====
-- src/unpack.cpp: `Unpack` of the values that a sequence of `Pack` put into blocks.
use xfutil.Base.{
  ℕ, ◌^◌, ◌≤◌, ◌<◌, ◌≡◌, ap, sym, ◌∙◌, subst, List, [], ◌∷◌, ◌++◌, append-nil, append_assoc, All,
  length, some,
}
use xfutil.Memory.{Mem}
use xfutil.Pack.{Block, Packer, new, pack_u64}
use xfutil.Pack.Blocks.{Apart}
use xfutil.Pack.Sequence.{concat, concat-append, HasPacked, pack_u64-HasPacked, new-HasPacked}
use xfutil.Unpack.{Unpacker, Unpacked, next_block, unpack_with, unpack_u64}
use xfutil.Unpack
use xfutil.Unpack.Blocks.{unpack_all, Blocks-full, unpack_new}

-- Values packed one after the other, each with the address that a new block would have.
abbrev pub pack_all : ℕ → Mem → Packer → List (ℕ × ℕ) → Mem × Packer
pack_all n mem p [] = (mem, p)
pack_all n mem p ((fresh, v) ∷ rest) =
    let r = pack_u64 (record { block_size = n; fresh = fresh }) mem p v in pack_all n r.0 r.1 rest

-- The allocator gives each block an address whose `n` bytes are apart from those of the blocks before.
abbrev pub Spread : ℕ → List ℕ → List (ℕ × ℕ) → Type 0
Spread n used [] = Unit
Spread n used ((fresh, v) ∷ rest) = All (λ a. Apart n a fresh) used × Spread n (fresh ∷ used) rest

abbrev pub values : List (ℕ × ℕ) → List ℕ
values [] = []
values ((fresh, v) ∷ rest) = v ∷ values rest

record IsPacked (n : ℕ) (r : Mem × Packer) (all : List ℕ) : Type 0 where
  used : List ℕ
  packed : HasPacked n r.0 used r.1 all

pack_all-IsPacked :
    (n : ℕ) (mem : Mem) (used : List ℕ) (p : Packer) (all : List ℕ) (items : List (ℕ × ℕ))
    → 10 ≤ n
    → n < 2 ^ 31
    → All (λ v. v < 2 ^ 64) (values items)
    → Spread n used items
    → HasPacked n mem used p all
    → IsPacked n (pack_all n mem p items) (all ++ values items)
pack_all-IsPacked n mem used p all [] large small h apart s = record {
  used = used;
  packed = subst (HasPacked n mem used p) (sym (append-nil all)) s;
}
pack_all-IsPacked n mem used p all ((fresh, v) ∷ items) large small (hv, hvs) (apart, aparts) s =
    let r = pack_u64 (record { block_size = n; fresh = fresh }) mem p v in
    let next = pack_u64-HasPacked n fresh mem used p all v large small hv apart s in
    subst (IsPacked n (pack_all n r.0 r.1 items)) (append_assoc all (v ∷ []) (values items))
      (pack_all-IsPacked n r.0 (fresh ∷ used) r.1 (all ++ v ∷ []) items large small hvs aparts next)

-- The memory and the packer after all, and the packer's blocks.
abbrev pub packed : ℕ → ℕ → Mem → List (ℕ × ℕ) → Mem × Packer
packed n start mem items = pack_all n mem (new (record { block_size = n; fresh = start })) items

abbrev pub blocks_of : Packer → List Block
blocks_of p = p.full ++ p.block ∷ []

-- Any sequence of values below 2^64 that a new packer packs, into blocks of 10 bytes or more, but
-- below 2^31, that the allocator places apart from each other, is what a new unpacker on the packer's
-- blocks unpacks, each call returning true.
pub unpack_all-packed :
    (n start : ℕ) (mem : Mem) (empty : ℕ) (items : List (ℕ × ℕ))
    → 10 ≤ n
    → n < 2 ^ 31
    → All (λ v. v < 2 ^ 64) (values items)
    → Spread n (start ∷ []) items
    → unpack_all
        (packed n start mem items).0
        empty
        (blocks_of (packed n start mem items).1)
        (length (values items))
        (Unpack.new empty (blocks_of (packed n start mem items).1))
      ≡ some (values items)
unpack_all-packed n start mem empty items large small h apart =
    let p = new (record { block_size = n; fresh = start }) in
    let s =
      pack_all-IsPacked n mem (start ∷ []) p [] items large small h apart
        (new-HasPacked n start mem large) in
    let all =
      concat-append s.packed.vss (s.packed.vs ∷ [])
      ∙ ap (◌++◌ (concat s.packed.vss)) (append-nil s.packed.vs)
      ∙ s.packed.values in
    let (fs, gap) =
      Blocks-full n _ s.used _ _ s.packed.vss _ s.packed.vs s.packed.packed.full
        s.packed.packed.current in
    let r = packed n start mem items in
    subst
      (λ vs.
        unpack_all r.0 empty (blocks_of r.1) (length vs) (Unpack.new empty (blocks_of r.1))
        ≡ some vs)
      all
      (unpack_new n r.0 empty (blocks_of r.1) (s.packed.vss ++ s.packed.vs ∷ [])
        (subst (All (λ v. v < 2 ^ 64)) (sym all) h) fs gap)
