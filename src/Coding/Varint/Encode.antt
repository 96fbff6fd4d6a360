-- ===== src/Coding/Varint/Encode.antt =====
-- src/coding.cpp: the bytes that `EncodeVarint` writes, in plain arithmetic.
use xfutil.Base.{
  ℕ, zero, suc, ◌+◌, ◌/◌, ◌%◌, ◌^◌, ◌≤◌, ◌<◌, ◌≡◌, refl, ◌∙◌, arith, List, [], ◌∷◌, length, ltb,
  bit_or, if◌then◌else◌, lt→ltb, le→ltb_false,
}
use xfutil.Base.Bits.{bit_or_top7}
use xfutil.Base.Order.{lt_wf}
use xfutil.Memory.{Mem, store, write}
use xfutil.Coding.Varint.{shift_shrinks, encode_varint_loop, encode_varint}
use mathlib.Core.WellFounded.{Acc}
use mathlib.Core.Logic.{dif_pos, dif_neg}
use native.Mathlib.Bridge.{le_prop}
use native.Mathlib.Decide.{dec_le}
use native.Mathlib.Nat.{mod-eq_of_lt, add-suc, suc-add, pow-suc}
use native.Mathlib.Numerals.{towards_suc}

-- The groups of seven bits of `v`, lowest first, for `v` below 128 ^ (k + 1).
unfoldable pub groups : ℕ → ℕ → List ℕ
groups zero v = v ∷ []
groups (suc k) v =
    let rest = groups k (v / 128) in if ltb v 128 then v ∷ [] else (v % 128 + 128) ∷ rest

-- The encoding of a `uint64_t`.
abbrev pub varint : ℕ → List ℕ
varint v = groups 9 v

pub length-groups : (k v : ℕ) → (1 ≤ length (groups k v)) × (length (groups k v) ≤ k + 1)
unfolding groups
length-groups zero v = omega arith
length-groups (suc k) v = ground (arith, length-groups k (v / 128))

-- A value below 128 ^ (k + 1) takes at most `k` + 1 bytes, whatever the fuel.
pub length-groups-le : (n k v : ℕ) → v < 128 ^ suc k → length (groups n v) ≤ suc k
unfolding groups
length-groups-le zero k v h = omega arith
length-groups-le (suc n) zero v h = ground arith
length-groups-le (suc n) (suc k) v h = ground (arith, length-groups-le n k (v / 128) (omega arith))

pub groups_last : (k v : ℕ) → v < 128 → groups k v ≡ v ∷ []
unfolding groups
groups_last zero v h = refl
groups_last (suc k) v h = rw (lt→ltb v 128 h)

pub groups_more : (k v : ℕ) → 128 ≤ v → groups (suc k) v ≡ (v % 128 + 128) ∷ groups k (v / 128)
unfolding groups
groups_more k v h = rw (le→ltb_false v 128 h)

-- The pair that writing the list `bs` at `buf` gives.
abbrev pub written : Mem → ℕ → List ℕ → Mem × ℕ
written mem buf bs = (write mem buf bs, buf + length bs)

written-cons :
    (mem : Mem) (buf b : ℕ) (bs : List ℕ)
    → written (store mem buf b) (buf + 1) bs ≡ written mem buf (b ∷ bs)
unfolding write
written-cons mem buf b bs = simp (towards_suc, add-suc, suc-add)

last_byte-written :
    (k : ℕ) (mem : Mem) (buf v : ℕ)
    → v < 128
    → ◌≡◌ {A = Mem × ℕ} (store mem buf (v % 256), buf + 1) (written mem buf (groups k v))
unfolding write
last_byte-written k mem buf v h =
    rw (groups_last k v h) (rw (mod-eq_of_lt {n = v} {m = 256} (omega arith)) refl)

encode_varint_loop-write :
    (k : ℕ) (mem : Mem) (buf v : ℕ) (w : Acc ◌<◌ v)
    → v < 128 ^ suc k
    → encode_varint_loop mem buf v w ≡ written mem buf (groups k v)
unfolding encode_varint_loop
encode_varint_loop-write zero mem buf v (Acc.intro _ smaller) h = elim (dec_le 0x80 v) [
  | yes p ↦ absurd (omega arith)
  | no p ↦ rw (dif_neg _ p) (last_byte-written zero mem buf v (omega arith))
]
encode_varint_loop-write (suc k) mem buf v (Acc.intro _ smaller) h = elim (dec_le 0x80 v) [
  | yes p ↦ rw (dif_pos _ le_prop p) (
      encode_varint_loop-write k (store mem buf (bit_or v 0x80 % 256)) (buf + 1) (v / 128)
        (smaller (v / 2 ^ 7) (shift_shrinks v p)) (omega (arith, pow-suc 128 (suc k)))
      ∙ rw (bit_or_top7 v, groups_more k v p) (written-cons mem buf _ _))
  | no p ↦ rw (dif_neg _ p) (last_byte-written (suc k) mem buf v (omega arith))
]

-- `EncodeVarint` writes the groups of its value and returns the pointer behind them.
pub encode_varint-write :
    (mem : Mem) (buf v : ℕ) → v < 2 ^ 64 → encode_varint mem buf v ≡ written mem buf (varint v)
unfolding encode_varint
encode_varint-write mem buf v h = encode_varint_loop-write 9 mem buf v (lt_wf.apply v) (omega arith)
