-- ===== src/Tests/Buffer.antt =====
-- src/buffer.cpp at concrete inputs.
use xfutil.Base.{inl, inr, ℕ, arith, true, List, [], ◌∷◌}
use xfutil.Buffer.{WriteBuffer, new, write, requested}
use xfutil.Buffer.Regions.{Owned, Apart, Fresh, IsValid, grow, Writes, start, then_, Writes-Apart}

-- A pool's buffer with 96 bytes left of 128 at 4096.
abbrev part : WriteBuffer
part = record {
  has_pool = true;
  block_size = 128;
  ptr = 4128;
  size = 96;
  usage = 128;
  blocks = 4096 ∷ [];
  bufs = [];
}

part-IsValid : IsValid part ((4096, 128) ∷ []) ((4096, 32) ∷ [])
part-IsValid = record {
  room_live = λ q i. inl (omega (arith, i.0, i.1), omega (arith, i.0, i.1));
  used_live = λ q o. elim o [
    | inl i ↦ inl (omega (arith, i.0, i.1), omega (arith, i.0, i.1))
    | inr none_ ↦ absurd none_
  ];
  apart = (
    λ q i o. elim o [ inl i' ↦ absurd (omega (arith, i.0, i'.1)) | inr none_ ↦ none_ ],
    ((λ q i o. o), tt),
  );
}

-- One write on a new buffer, which takes a block.
abbrev once : WriteBuffer
once = (write (new true 128) 4096 40).0

nothing_live : Fresh (requested (new true 128) 40) 4096 []
unfolding requested new
nothing_live = λ q i o. o

one_write :
    Writes 128 once
      (grow (requested (new true 128) 40) 4096 [])
      (((write (new true 128) 4096 40).1, 40) ∷ [])
one_write = then_ 4096 40 start nothing_live

Writes-Apart_example :
    Apart (((write (new true 128) 4096 40).1, 40) ∷ [])
    × ((q : ℕ)
        → Owned (((write (new true 128) 4096 40).1, 40) ∷ []) q
        → Owned (grow (requested (new true 128) 40) 4096 []) q)
Writes-Apart_example = Writes-Apart 128 one_write

-- A block of the pool, and a long one.
abbrev requests : List (ℕ × ℕ)
requests = (65536, 100) ∷ (131072, 5000) ∷ []
