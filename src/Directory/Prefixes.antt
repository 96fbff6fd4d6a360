-- ===== src/Directory/Prefixes.antt =====
-- src/directory.cpp: which directories `Create_r` makes.
use xfutil.Base.{
  ℕ, ◌≡◌, ◌⊎◌, inl, inr, refl, sym, ◌∙◌, subst, Bool-cases, Option-cases, ◌==◌, Bool, true, false,
  if◌then◌else◌, List, [], ◌∷◌, ◌++◌, some,
}
use xfutil.Path.{slash}
use xfutil.Queue.Runs.{Among, here, there}
use xfutil.Directory.{Directories, create, create_from, create_r}

-- The documented behaviour of `mkdir`: the directory is there then, no other one comes, and none goes.
pub record IsDirectories (dirs : Directories) : Type 0 where
  pub made : (s s' : dirs.State) (p : List ℕ) → dirs.mkdir s p ≡ some s' → dirs.exist s' p ≡ true
  pub kept :
      (s s' : dirs.State) (p q : List ℕ)
      → dirs.mkdir s p ≡ some s'
      → dirs.exist s q ≡ true
      → dirs.exist s' q ≡ true
  pub only :
      (s s' : dirs.State) (p q : List ℕ)
      → dirs.mkdir s p ≡ some s'
      → dirs.exist s' q ≡ true
      → (dirs.exist s q ≡ true) ⊎ (q ≡ p)

-- The path, and what stands in front of its slashes behind `front`.
abbrev pub prefixes : List ℕ → List ℕ → List (List ℕ)
prefixes front [] = front ∷ []
prefixes front (c ∷ rest) =
    let later = prefixes (front ++ c ∷ []) rest in if c == slash then front ∷ later else later

-- Two paths that stand one behind the other in a list.
pub data Next (p q : List ℕ) : List (List ℕ) → Type 0 where
  at : {ps : List (List ℕ)} → Next p q (p ∷ q ∷ ps)
  after : {x : List ℕ} {ps : List (List ℕ)} → Next p q ps → Next p q (x ∷ ps)

one-Among : (q p : List ℕ) → Among q (p ∷ []) → q ≡ p
one-Among q p (here same) = same
one-Among q p (there among) = elim among [ ]

false-ne : false ≡ true → ⊥
false-ne e = cc

module _ (dirs : Directories) (laws : IsDirectories dirs) where
  -- What a call that makes directories of a list does: none goes, those that come are of the list, and
  -- all of the list are there where it returns true.
  pub record Makes (s : dirs.State) (paths : List (List ℕ)) (r : dirs.State × Bool) : Type 0 where
    pub all : r.1 ≡ true → (p : List ℕ) → Among p paths → dirs.exist r.0 p ≡ true
    pub kept : (q : List ℕ) → dirs.exist s q ≡ true → dirs.exist r.0 q ≡ true
    pub only : (q : List ℕ) → dirs.exist r.0 q ≡ true → (dirs.exist s q ≡ true) ⊎ Among q paths

  create-Makes : (s : dirs.State) (p : List ℕ) → Makes s (p ∷ []) (create dirs s p)
  unfolding create
  create-Makes s p = elim (Bool-cases (dirs.exist s p)) [
    | inl is ↦ rw is (record {
      all = λ _ q among. subst (λ x. dirs.exist s x ≡ true) (sym (one-Among q p among)) is;
      kept = λ q has. has;
      only = λ q has. inl has;
    })
    | inr missing ↦ elim (Option-cases (dirs.mkdir s p)) [
      | inl fails ↦
          rw (missing, fails)
            (record {
              all = λ bad. absurd (false-ne bad);
              kept = λ q has. has;
              only = λ q has. inl has;
            })
      | inr (s', ok) ↦
          rw (missing, ok)
            (record {
              all = λ _ q among.
                  subst (λ x. dirs.exist s' x ≡ true) (sym (one-Among q p among))
                    (laws.made s s' p ok);
              kept = λ q has. laws.kept s s' p q ok has;
              only = λ q has. elim (laws.only s s' p q ok has) [
                | inl old ↦ inl old
                | inr same ↦ inr (here same)
              ];
            })
    ]
  ]

  -- The first directory is there, and then the others.
  then-Makes :
      (s : dirs.State) (p : List ℕ) (ps : List (List ℕ)) (r r' : dirs.State × Bool)
      → r.1 ≡ true
      → Makes s (p ∷ []) r
      → Makes r.0 ps r'
      → Makes s (p ∷ ps) r'
  then-Makes s p ps r r' ok m m' = record {
    all = both;
    kept = λ q has. m'.kept q (m.kept q has);
    only = λ q has. elim (m'.only q has) [
      | inl old ↦ elim (m.only q old) [
        | inl older ↦ inl older
        | inr among ↦ inr (here (one-Among q p among))
      ]
      | inr among ↦ inr (there among)
    ];
  }
    where
      both : r'.1 ≡ true → (q : List ℕ) → Among q (p ∷ ps) → dirs.exist r'.0 q ≡ true
      both ok' q (here same) = m'.kept q (m.all ok q (here same))
      both ok' q (there among) = m'.all ok' q among

  -- The first directory could not be made.
  stop-Makes :
      (s : dirs.State) (p : List ℕ) (ps : List (List ℕ)) (r : dirs.State × Bool)
      → r.1 ≡ false
      → Makes s (p ∷ []) r
      → Makes s (p ∷ ps) r
  stop-Makes s p ps r bad m = record {
    all = λ ok. absurd (false-ne (sym bad ∙ ok));
    kept = m.kept;
    only = λ q has. elim (m.only q has) [
      | inl old ↦ inl old
      | inr among ↦ inr (here (one-Among q p among))
    ];
  }

  create_from-Makes :
      (s : dirs.State) (front rest : List ℕ)
      → Makes s (prefixes front rest) (create_from dirs s front rest)
  unfolding create_from
  create_from-Makes s front [] = create-Makes s front
  create_from-Makes s front (c ∷ rest) = elim (Bool-cases (c == slash)) [
    | inl is ↦ elim (Bool-cases (create dirs s front).1) [
      | inl ok ↦
          rw (is, ok)
            (then-Makes s front _ _ _ ok (create-Makes s front)
              (create_from-Makes (create dirs s front).0 (front ++ c ∷ []) rest))
      | inr bad ↦ rw (is, bad) (stop-Makes s front _ _ bad (create-Makes s front))
    ]
    | inr other ↦ rw other (create_from-Makes s (front ++ c ∷ []) rest)
  ]

  create-true :
      (s : dirs.State) (p : List ℕ)
      → (dirs.exist s p ≡ false → (s' : dirs.State) × (dirs.mkdir s p ≡ some s'))
      → (create dirs s p).1 ≡ true
  unfolding create
  create-true s p able = elim (Bool-cases (dirs.exist s p)) [
    | inl is ↦ rw is refl
    | inr missing ↦ let (s', ok) = able missing in rw (missing, ok) refl
  ]

  create_from-true :
      (s : dirs.State) (above front rest : List ℕ)
      → ((s : dirs.State) (p q : List ℕ)
          → Next p q (above ∷ prefixes front rest)
          → dirs.exist s p ≡ true
          → dirs.exist s q ≡ false
          → (s' : dirs.State) × (dirs.mkdir s q ≡ some s'))
      → dirs.exist s above ≡ true
      → (create_from dirs s front rest).1 ≡ true
  unfolding create_from
  create_from-true s above front [] able up = create-true s front (able s above front at up)
  create_from-true s above front (c ∷ rest) able up = elim (Bool-cases (c == slash)) [
    | inl is ↦
        let first = create-true s front (able s above front (rw is at) up) in
        rw (is, first)
          (create_from-true (create dirs s front).0 front (front ++ c ∷ []) rest
            (λ t p q next. able t p q (rw is (after next)))
            ((create-Makes s front).all first front (here refl)))
    | inr other ↦ rw other (
        create_from-true s above (front ++ c ∷ []) rest (λ t p q next. able t p q (rw other next))
          up)
  ]

  -- Take the path and what stands in front of its slashes behind the first byte, in this order, behind a
  -- directory `above` that is there. Where `mkdir` makes each of them that is missing while the one in
  -- front of it is there, as for a user whom the mode 0644 does not stop, `Create_r` of a path that is not empty returns true, each of them is a directory
  -- then, no other directory was made, and each that was there is still there.
  pub create_r-true :
      (s : dirs.State) (above : List ℕ) (first : ℕ) (rest : List ℕ)
      → ((s : dirs.State) (p q : List ℕ)
          → Next p q (above ∷ prefixes (first ∷ []) rest)
          → dirs.exist s p ≡ true
          → dirs.exist s q ≡ false
          → (s' : dirs.State) × (dirs.mkdir s q ≡ some s'))
      → dirs.exist s above ≡ true
      → ((create_r dirs s first rest).1 ≡ true)
        × ((p : List ℕ)
            → Among p (prefixes (first ∷ []) rest)
            → dirs.exist (create_r dirs s first rest).0 p ≡ true)
        × ((q : List ℕ)
            → dirs.exist (create_r dirs s first rest).0 q ≡ true
            → (dirs.exist s q ≡ true) ⊎ Among q (prefixes (first ∷ []) rest))
        × ((q : List ℕ)
            → dirs.exist s q ≡ true
            → dirs.exist (create_r dirs s first rest).0 q ≡ true)
  unfolding create_r
  create_r-true s above first rest able up =
      let m = create_from-Makes s (first ∷ []) rest in
      let ok = create_from-true s above (first ∷ []) rest able up in (ok, m.all ok, m.only, m.kept)
