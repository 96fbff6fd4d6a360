-- ===== src/Time/Digits.antt =====
-- src/time.cpp: numbers of two and four digits, printed and read.
use xfutil.Base.{
  ℕ, suc, ◌+◌, ◌*◌, ◌/◌, ◌%◌, ◌^◌, ◌≤◌, ◌<◌, ◌≡◌, refl, ap₂, arith, List, [], ◌∷◌, ◌++◌, ltb, false,
  Bool-cases, inl, inr, ltb→lt, ltb_false→le, le→ltb_false, lt→ltb,
}
use native.Mathlib.Nat.{mod-eq_of_lt}
use xfutil.Time.{digits_value, skip_space, strtol, decimal, padded, is_digit}

pub decimal_step : (k n : ℕ) → 10 ≤ n → decimal (suc k) n ≡ decimal k (n / 10) ++ (48 + n % 10) ∷ []
unfolding decimal
decimal_step k n h = rw (le→ltb_false n 10 h) refl

decimal_last : (k n : ℕ) → n < 10 → decimal (suc k) n ≡ (48 + n) ∷ []
unfolding decimal
decimal_last k n h = rw (lt→ltb n 10 h) refl

pub padded_two : (n : ℕ) → n < 100 → padded 2 n ≡ (48 + n / 10) ∷ (48 + n % 10) ∷ []
unfolding padded
padded_two n h = elim (Bool-cases (ltb n 10)) [
  | inl small ↦ rw (decimal_last 9 n (ltb→lt n 10 small)) (
      ap₂ (λ (x y : ℕ). x ∷ y ∷ []) (omega (arith, ltb→lt n 10 small))
        (omega (arith, ltb→lt n 10 small)))
  | inr large ↦
      rw (decimal_step 9 n (ltb_false→le n 10 large), decimal_last 8 (n / 10) (omega arith)) refl
]

-- Two digits, with no digit behind them.
pub strtol_two :
    (a b c : ℕ) (rest : List ℕ)
    → a < 10
    → b < 10
    → is_digit c ≡ false
    → strtol ((48 + a) ∷ (48 + b) ∷ c ∷ rest) ≡ a * 10 + b
unfolding strtol digits_value skip_space
strtol_two a b c rest ha hb hc =
    ground (arith, mod-eq_of_lt {n = a * 10 + b} {m = 2 ^ 32} (omega arith))
