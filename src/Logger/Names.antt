-- ===== src/Logger/Names.antt =====
-- src/logger_impl.cpp: the names of the log files.
use xfutil.Base.{
  ℕ, zero, suc, ◌+◌, ◌-◌, ◌*◌, ◌/◌, ◌%◌, ◌^◌, ◌≤◌, ◌<◌, ◌≡◌, ◌≢◌, refl, ap, sym, ◌∙◌, arith,
  Bool-cases, inl, inr, ltb, List, [], ◌∷◌, ◌++◌, length, length-append, take_whole, drop,
  drop-append,
}
use xfutil.Time.{decimal}
use xfutil.Logger.{FileSystem, LogConfig, numbered}

-- The number that digits show, behind `acc`.
abbrev value : ℕ → List ℕ → ℕ
value acc [] = acc
value acc (c ∷ cs) = value (acc * 10 + (c - 48)) cs

value-append :
    (acc : ℕ) (cs : List ℕ) (c : ℕ) → value acc (cs ++ c ∷ []) ≡ value acc cs * 10 + (c - 48)
value-append acc [] c = refl
value-append acc (d ∷ cs) c = value-append (acc * 10 + (d - 48)) cs c

abbrev ten_to : ℕ → ℕ
ten_to zero = 1
ten_to (suc k) = 10 * ten_to k

value-decimal : (k n : ℕ) → n < ten_to k → value 0 (decimal k n) ≡ n
unfolding decimal
value-decimal zero n h = omega arith
value-decimal (suc k) n h = elim (Bool-cases (ltb n 10)) [
  | inl small ↦ rw small (omega arith)
  | inr large ↦
      rw
        (
          large,
          value-append 0 (decimal k (n / 10)) (48 + n % 10),
          value-decimal k (n / 10) (omega (arith, h)),
        )
        (omega arith)
]

length-decimal_le : (k n : ℕ) → length (decimal k n) ≤ k
unfolding decimal
length-decimal_le zero n = omega arith
length-decimal_le (suc k) n = elim (Bool-cases (ltb n 10)) [
  | inl small ↦ rw small (omega arith)
  | inr large ↦ rw large (
      omega (
        arith,
        length-append (decimal k (n / 10)) ((48 + n % 10) ∷ []),
        length-decimal_le k (n / 10),
      ))
]

module _ (fs : FileSystem) (conf : LogConfig) (short : length conf.file_path ≤ 244) where
  numbered_whole : (i : ℕ) → numbered fs conf i ≡ conf.file_path ++ b'.' ∷ decimal 10 i
  unfolding numbered
  numbered_whole i = take_whole 255 (conf.file_path ++ b'.' ∷ decimal 10 i) (
      omega
        (arith, short, length-append conf.file_path (b'.' ∷ decimal 10 i), length-decimal_le 10 i))

  -- Two numbers have two names.
  pub numbered_inj :
      (i j : ℕ) → i < 2 ^ 32 → j < 2 ^ 32 → numbered fs conf i ≡ numbered fs conf j → i ≡ j
  numbered_inj i j hi hj same =
      let digits : decimal 10 i ≡ decimal 10 j =
        sym (drop-append conf.file_path (decimal 10 i) b'.')
        ∙ ap (drop (suc (length conf.file_path))) (sym (numbered_whole i) ∙ same ∙ numbered_whole j)
        ∙ drop-append conf.file_path (decimal 10 j) b'.' in
      sym (value-decimal 10 i (omega (arith, hi)))
      ∙ ap (value 0) digits
      ∙ value-decimal 10 j (omega (arith, hj))

  pub numbered_ne : (i : ℕ) → numbered fs conf i ≢ conf.file_path
  numbered_ne i same = omega (
    arith,
    ap length (sym (numbered_whole i) ∙ same),
    length-append conf.file_path (b'.' ∷ decimal 10 i),
  )
