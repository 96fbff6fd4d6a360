-- ===== src/File/Retry.antt =====
-- src/file.cpp: the loops of `Read` and `Write` over interrupted system calls.
use xfutil.Base.{
  ℕ, zero, suc, ◌+◌, ◌<◌, ◌≡◌, ◌≢◌, ◌⊎◌, inl, inr, refl, ap, sym, ◌∙◌, arith, true, false, Option,
  none, some,
}
use xfutil.Aio.Process.{SysCall, Sys, read, write, readv, writev, pread, pwrite, preadv, pwritev}
use xfutil.File.{
  File, eintr, is_interrupted, retry, fd_of, transfer, read_buf, read_iobuf, read_from,
  read_iobuf_from, write_buf, write_iobuf, write_to, write_iobuf_to,
}

retry-first :
    (n fuel : ℕ) (answer : ℕ → Option ℕ × ℕ) (k : ℕ)
    → n < fuel
    → ((j : ℕ) → j < n → is_interrupted (answer (k + j)) ≡ true)
    → is_interrupted (answer (k + n)) ≡ false
    → retry fuel answer k ≡ some (answer (k + n)).0
unfolding retry
retry-first n zero answer k h early done = absurd (omega arith)
retry-first zero (suc fuel) answer k h early done =
    let here : k + 0 ≡ k = omega arith in
    rw (rw here at done) (ap (λ j. some (answer j).0) (sym here))
retry-first (suc n) (suc fuel) answer k h early done =
    let here : k + 0 ≡ k = omega arith in
    let shift : (j : ℕ) → suc k + j ≡ k + suc j = λ j. omega arith in
    rw (rw here at (early 0 (omega arith))) (
      retry-first n fuel answer (suc k) (omega arith)
        (λ j less. ap (λ i. is_interrupted (answer i)) (shift j) ∙ early (suc j) (omega arith))
        (ap (λ i. is_interrupted (answer i)) (shift n) ∙ done)
      ∙ ap (λ j. some (answer j).0) (shift n))

final :
    (r : Option ℕ) (errno : ℕ) → (r ≢ none) ⊎ (errno ≢ eintr) → is_interrupted (r, errno) ≡ false
final (some m) errno h = refl
final none errno (inl h) = absurd (h refl)
final none errno (inr h) = ground arith

transfer-retry :
    (n fuel errno : ℕ) (sys : ℕ → Sys) (call : SysCall) (r : Option ℕ)
    → n < fuel
    → ((j : ℕ) → j < n → sys j call ≡ (none, eintr))
    → sys n call ≡ (r, errno)
    → (r ≢ none) ⊎ (errno ≢ eintr)
    → transfer fuel sys call ≡ some r
unfolding transfer
transfer-retry n fuel errno sys call r h early last done =
    let at : (j : ℕ) → 0 + j ≡ j = λ j. omega arith in
    retry-first n fuel (λ k. sys k call) 0 h
      (λ j less. ap (λ i. is_interrupted (sys i call)) (at j) ∙ ap is_interrupted (early j less))
      (ap (λ i. is_interrupted (sys i call)) (at n) ∙ ap is_interrupted last ∙ final r errno done)
    ∙ ap (λ j. some (sys j call).0) (at n)
    ∙ ap (λ (a : Option ℕ × ℕ). some a.0) last

-- The eight methods, with the arguments of each.
pub data Method : Type 0 where
  reads reads_iobuf writes writes_iobuf : (buf size : ℕ) → Method
  reads_from reads_iobuf_from writes_to writes_iobuf_to : (offset buf size : ℕ) → Method

-- The call of the method on a file.
abbrev pub run : ℕ → (ℕ → Sys) → File → Method → Option (Option ℕ)
run fuel sys f (reads buf size) = read_buf fuel sys f buf size
run fuel sys f (reads_iobuf buf size) = read_iobuf fuel sys f buf size
run fuel sys f (writes buf size) = write_buf fuel sys f buf size
run fuel sys f (writes_iobuf buf size) = write_iobuf fuel sys f buf size
run fuel sys f (reads_from offset buf size) = read_from fuel sys f offset buf size
run fuel sys f (reads_iobuf_from offset buf size) = read_iobuf_from fuel sys f offset buf size
run fuel sys f (writes_to offset buf size) = write_to fuel sys f offset buf size
run fuel sys f (writes_iobuf_to offset buf size) = write_iobuf_to fuel sys f offset buf size

-- The system call that the method stands for.
abbrev pub call_of : ℕ → Method → SysCall
call_of fd (reads buf size) = read fd buf size
call_of fd (reads_iobuf buf size) = readv fd buf size
call_of fd (writes buf size) = write fd buf size
call_of fd (writes_iobuf buf size) = writev fd buf size
call_of fd (reads_from offset buf size) = pread fd buf size offset
call_of fd (reads_iobuf_from offset buf size) = preadv fd buf size offset
call_of fd (writes_to offset buf size) = pwrite fd buf size offset
call_of fd (writes_iobuf_to offset buf size) = pwritev fd buf size offset

run-transfer :
    (fuel : ℕ) (sys : ℕ → Sys) (f : File) (m : Method)
    → run fuel sys f m ≡ transfer fuel sys (call_of (fd_of f) m)
unfolding read_buf read_iobuf read_from read_iobuf_from write_buf write_iobuf write_to
    write_iobuf_to
run-transfer fuel sys f (reads buf size) = refl
run-transfer fuel sys f (reads_iobuf buf size) = refl
run-transfer fuel sys f (writes buf size) = refl
run-transfer fuel sys f (writes_iobuf buf size) = refl
run-transfer fuel sys f (reads_from offset buf size) = refl
run-transfer fuel sys f (reads_iobuf_from offset buf size) = refl
run-transfer fuel sys f (writes_to offset buf size) = refl
run-transfer fuel sys f (writes_iobuf_to offset buf size) = refl

-- Each of the four `Read` and the four `Write` makes its own system call again as long as it returns -1
-- with the `errno` 4, `EINTR`, and returns what the first call with another outcome returns: a number,
-- or -1 with another `errno`.
pub run-first :
    (n fuel errno : ℕ) (sys : ℕ → Sys) (f : File) (m : Method) (r : Option ℕ)
    → n < fuel
    → ((j : ℕ) → j < n → sys j (call_of (fd_of f) m) ≡ (none, 4))
    → sys n (call_of (fd_of f) m) ≡ (r, errno)
    → (r ≢ none) ⊎ (errno ≢ 4)
    → run fuel sys f m ≡ some r
run-first n fuel errno sys f m r h early last done =
    run-transfer fuel sys f m
    ∙ transfer-retry n fuel errno sys (call_of (fd_of f) m) r h early last done
