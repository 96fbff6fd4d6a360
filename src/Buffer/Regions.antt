-- ===== src/Buffer/Regions.antt =====
-- src/buffer.cpp: the bytes that the calls of `Write` hand out.
use xfutil.Base.{
  ℕ, ◌+◌, ◌-◌, ◌/◌, ◌%◌, ◌^◌, ◌≤◌, ◌<◌, ◌≡◌, ◌⊎◌, inl, inr, refl, arith, Bool-cases, true, false,
  ltb, leb, leb→le, le→leb, ltb_false→le, le→ltb_false, lt→leb_false, List, [], ◌∷◌, ◌++◌, Option,
  none, some,
}
use xfutil.Buffer.{WriteBuffer, new, take_room, large_write, write, requested}

-- The byte `q` is one of `r.1` bytes from `r.0` on.
abbrev pub In : ℕ → ℕ × ℕ → Type 0
In q r = (r.0 ≤ q) × (q < r.0 + r.1)

-- The byte is in one of the regions.
abbrev pub Owned : List (ℕ × ℕ) → ℕ → Type 0
Owned [] q = ⊥
Owned (r ∷ rs) q = In q r ⊎ Owned rs q

-- The regions share no byte.
abbrev pub Apart : List (ℕ × ℕ) → Type 0
Apart [] = Unit
Apart (r ∷ rs) = ((q : ℕ) → In q r → ¬ Owned rs q) × Apart rs

-- What the buffer has left.
abbrev pub room : WriteBuffer → ℕ × ℕ
room wb = (wb.ptr, wb.size)

-- `live` is the memory that the buffer got, `used` what it handed out: they and the room left share
-- no byte, and all of it was got.
pub record IsValid (wb : WriteBuffer) (live used : List (ℕ × ℕ)) : Type 0 where
  pub room_live : (q : ℕ) → In q (room wb) → Owned live q
  pub used_live : (q : ℕ) → Owned used q → Owned live q
  pub apart : Apart (room wb ∷ used)

-- The memory after a call that asks for some or none.
abbrev pub grow : Option ℕ → ℕ → List (ℕ × ℕ) → List (ℕ × ℕ)
grow none fresh live = live
grow (some n) fresh live = (fresh, n) ∷ live

-- The new memory shares no byte with the old.
abbrev pub Fresh : Option ℕ → ℕ → List (ℕ × ℕ) → Type 0
Fresh none fresh live = Unit
Fresh (some n) fresh live = (q : ℕ) → In q (fresh, n) → ¬ Owned live q

take_room-IsValid :
    (wb : WriteBuffer) (size : ℕ) (live used : List (ℕ × ℕ))
    → IsValid wb live used
    → size ≤ wb.size
    → IsValid (take_room wb size).0 live ((wb.ptr, size) ∷ used)
unfolding take_room
take_room-IsValid wb size live used v h = record {
  room_live = λ q i. v.room_live q (omega (arith, i.0, i.1), omega (arith, i.0, i.1));
  used_live =
      λ q o. elim o [ inl i ↦ v.room_live q (i.0, omega (arith, i.1)) | inr u ↦ v.used_live q u ];
  apart = (
    λ q i o. elim o [
      | inl i' ↦ absurd (omega (arith, i.0, i'.1))
      | inr u ↦ v.apart.0 q (omega (arith, i.0), omega (arith, i.0, i.1)) u
    ],
    ((λ q i u. v.apart.0 q (i.0, omega (arith, i.1)) u), v.apart.1),
  );
}

own-IsValid :
    (wb : WriteBuffer) (usage : ℕ) (bufs : List ℕ) (fresh size : ℕ) (live used : List (ℕ × ℕ))
    → IsValid wb live used
    → ((q : ℕ) → In q (fresh, size) → ¬ Owned live q)
    → IsValid
        (record wb { usage = usage; bufs = bufs })
        ((fresh, size) ∷ live)
        ((fresh, size) ∷ used)
own-IsValid wb usage bufs fresh size live used v new_memory = record {
  room_live = λ q i. inr (v.room_live q i);
  used_live = λ q o. elim o [ inl i ↦ inl i | inr u ↦ inr (v.used_live q u) ];
  apart = (
    λ q i o. elim o [ inl i' ↦ new_memory q i' (v.room_live q i) | inr u ↦ v.apart.0 q i u ],
    ((λ q i u. new_memory q i (v.used_live q u)), v.apart.1),
  );
}

block-IsValid :
    (wb wb' : WriteBuffer) (live used : List (ℕ × ℕ))
    → IsValid wb live used
    → ((q : ℕ) → In q (room wb') → ¬ Owned live q)
    → IsValid wb' (room wb' ∷ live) used
block-IsValid wb wb' live used v new_memory = record {
  room_live = λ q i. inl i;
  used_live = λ q u. inr (v.used_live q u);
  apart = ((λ q i u. new_memory q i (v.used_live q u)), v.apart.1);
}

large_write-IsValid :
    (wb : WriteBuffer) (fresh size : ℕ) (live used : List (ℕ × ℕ))
    → IsValid wb live used
    → wb.has_pool ≡ true
    → wb.size < size
    → Fresh (requested wb size) fresh live
    → IsValid
        (large_write wb fresh size).0
        (grow (requested wb size) fresh live)
        (((large_write wb fresh size).1, size) ∷ used)
unfolding large_write requested take_room
large_write-IsValid wb fresh size live used v pooled h new_memory =
    elim (Bool-cases (ltb (wb.block_size / 2) size)) [
      | inl big ↦
          rw (lt→leb_false _ _ h, big)
            (own-IsValid wb _ _ fresh size live used v (rw (lt→leb_false _ _ h, big) at new_memory))
      | inr small ↦
          let fits : size ≤ wb.block_size / 2 = ltb_false→le _ _ small in
          let block : WriteBuffer = record wb {
            has_pool = true;
            ptr = fresh;
            blocks = wb.blocks ++ fresh ∷ [];
            usage = (wb.usage + wb.block_size) % 2 ^ 64;
            size = wb.block_size;
          } in
          rw (lt→leb_false _ _ h, small, pooled)
            (take_room-IsValid block size ((fresh, wb.block_size) ∷ live) used
              (block-IsValid wb block live used v
                (rw (lt→leb_false _ _ h, small, pooled) at new_memory))
              (omega arith))
    ]

requested-none : (wb : WriteBuffer) (size : ℕ) → leb size wb.size ≡ true → requested wb size ≡ none
unfolding requested
requested-none wb size fits = rw fits refl

-- `Write` from a pool keeps the buffer valid: it hands out memory that it got, in no region
-- handed out before, if what the pool or the allocator gives is new.
pub write-IsValid :
    (wb : WriteBuffer) (fresh size : ℕ) (live used : List (ℕ × ℕ))
    → IsValid wb live used
    → wb.has_pool ≡ true
    → Fresh (requested wb size) fresh live
    → IsValid
        (write wb fresh size).0
        (grow (requested wb size) fresh live)
        (((write wb fresh size).1, size) ∷ used)
unfolding write
write-IsValid wb fresh size live used v pooled new_memory = elim (Bool-cases (leb size wb.size)) [
  | inl fits ↦
      rw (fits, requested-none wb size fits)
        (take_room-IsValid wb size live used v (leb→le _ _ fits))
  | inr more ↦
      rw more (large_write-IsValid wb fresh size live used v pooled (ground arith) new_memory)
]

write-has_pool :
    (wb : WriteBuffer) (fresh size : ℕ)
    → wb.has_pool ≡ true
    → (write wb fresh size).0.has_pool ≡ true
unfolding write large_write take_room
write-has_pool wb fresh size pooled = elim (Bool-cases (leb size wb.size)) [
  | inl fits ↦ rw fits pooled
  | inr more ↦ elim (Bool-cases (ltb (wb.block_size / 2) size)) [
    | inl big ↦ rw (more, big) pooled
    | inr small ↦ rw (more, small, pooled) refl
  ]
]

-- Calls of `Write` on a new buffer with a pool, with the memory got and the regions handed out.
pub data Writes (block_size : ℕ) : WriteBuffer → List (ℕ × ℕ) → List (ℕ × ℕ) → Type 0 where
  start : Writes block_size (new true block_size) [] []
  then_ :
      {wb : WriteBuffer} {live used : List (ℕ × ℕ)} (fresh size : ℕ)
      → Writes block_size wb live used
      → Fresh (requested wb size) fresh live
      → Writes block_size
          (write wb fresh size).0
          (grow (requested wb size) fresh live)
          (((write wb fresh size).1, size) ∷ used)

Writes-IsValid :
    (block_size : ℕ) {wb : WriteBuffer} {live used : List (ℕ × ℕ)}
    → Writes block_size wb live used
    → IsValid wb live used × (wb.has_pool ≡ true)
unfolding new
Writes-IsValid block_size start = (
  record {
    room_live = λ q i. absurd (omega (arith, i.0, i.1));
    used_live = λ q u. u;
    apart = ((λ q i u. u), tt);
  },
  refl,
)
Writes-IsValid block_size (then_ {wb = wb} {live = live} {used = used} fresh size run new_memory) =
    let (valid, pooled) = Writes-IsValid block_size run in
    (
      write-IsValid wb fresh size live used valid pooled new_memory,
      write-has_pool wb fresh size pooled,
    )

-- After any calls of `Write` on a new buffer with a pool, no two of the regions handed out share a
-- byte, and every byte of them is in memory that the buffer got.
pub Writes-Apart :
    (block_size : ℕ) {wb : WriteBuffer} {live used : List (ℕ × ℕ)}
    → Writes block_size wb live used
    → Apart used × ((q : ℕ) → Owned used q → Owned live q)
Writes-Apart block_size run =
    let valid = (Writes-IsValid block_size run).0 in (valid.apart.1, valid.used_live)

-- Without a pool, a write of at most half a block that does not fit gets no more bytes than it
-- writes, and yet a next write of at most the rest of a block goes to the address behind them.
pub write_unpooled-write :
    (wb : WriteBuffer) (fresh fresh' size more : ℕ)
    → wb.has_pool ≡ false
    → wb.size < size
    → size ≤ wb.block_size / 2
    → more ≤ wb.block_size - size
    → (requested wb size ≡ some size)
      × ((write wb fresh size).1 ≡ fresh)
      × ((write (write wb fresh size).0 fresh' more).1 ≡ fresh + size)
unfolding write large_write take_room requested
write_unpooled-write wb fresh fresh' size more unpooled h small fits =
    rw (lt→leb_false _ _ h, le→ltb_false _ _ small, unpooled)
      (refl, refl, rw (le→leb more (wb.block_size - size) fits) refl)
