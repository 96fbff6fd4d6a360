-- ===== src/Ring/Segment.antt =====
-- include/xfutil/list.h: nodes that follow each other in both directions.
use xfutil.Base.{ℕ, ◌≡◌, ◌≢◌, sym, arith, List, [], ◌∷◌, ◌++◌}
use xfutil.Ring.{Nodes, set_next, set_prev, list_insert_}

-- `x` is not in the list.
abbrev pub Off : ℕ → List ℕ → Type 0
Off x [] = Unit
Off x (y ∷ ys) = (y ≢ x) × Off x ys

abbrev pub Distinct : List ℕ → Type 0
Distinct [] = Unit
Distinct (x ∷ xs) = Off x xs × Distinct xs

-- From `a` the nodes `xs` follow, and then `b`, in both directions.
abbrev pub Seg : Nodes → ℕ → List ℕ → ℕ → Type 0
Seg s a [] b = (s.next a ≡ b) × (s.prev b ≡ a)
Seg s a (x ∷ xs) b = (s.next a ≡ x) × (s.prev x ≡ a) × Seg s x xs b

abbrev pub last : ℕ → List ℕ → ℕ
last a [] = a
last a (x ∷ xs) = last x xs

abbrev pub first : List ℕ → ℕ → ℕ
first [] b = b
first (x ∷ xs) b = x

-- The edges of a segment keep what is written at other nodes.
Seg-frame :
    (s : Nodes) (a : ℕ) (xs : List ℕ) (b u u' v v' : ℕ)
    → Off u (a ∷ xs)
    → Off v xs
    → b ≢ v
    → Seg s a xs b
    → Seg (set_next (set_prev s v v') u u') a xs b
Seg-frame s a [] b u u' v v' ou ov bv g = (ground (arith, g.0, ou.0), ground (arith, g.1))
Seg-frame s a (x ∷ xs) b u u' v v' ou ov bv g = (
  ground (arith, g.0, ou.0),
  ground (arith, g.1, ov.0),
  Seg-frame s x xs b u u' v v' ou.1 ov.1 bv g.2,
)

Off-last : (n a : ℕ) (xs zs : List ℕ) → Off n (a ∷ (xs ++ zs)) → last a xs ≢ n
Off-last n a [] zs o = o.0
Off-last n a (x ∷ xs) zs o = Off-last n x xs zs o.1

Off-first : (n : ℕ) (xs zs : List ℕ) (b : ℕ) → Off n (xs ++ zs) → b ≢ n → first zs b ≢ n
Off-first n [] [] b o bn = bn
Off-first n [] (z ∷ zs) b o bn = o.0
Off-first n (x ∷ xs) zs b o bn = Off-first n xs zs b o.1 bn

Off-first_after : (n m : ℕ) (xs zs : List ℕ) (b : ℕ) → Off n (xs ++ m ∷ zs) → b ≢ n → first zs b ≢ n
Off-first_after n m [] [] b o bn = bn
Off-first_after n m [] (z ∷ zs) b o bn = o.1.0
Off-first_after n m (x ∷ xs) zs b o bn = Off-first_after n m xs zs b o.1 bn

-- Joining the last of the first nodes and the first of the others.
pub join-Seg :
    (s : Nodes) (a : ℕ) (ys zs : List ℕ) (n b : ℕ)
    → Distinct (a ∷ (ys ++ n ∷ zs))
    → Off b (ys ++ n ∷ zs)
    → Seg s a (ys ++ n ∷ zs) b
    → Seg (set_next (set_prev s (first zs b) (last a ys)) (last a ys) (first zs b)) a (ys ++ zs) b
join-Seg s a [] [] n b d o g = (ground arith, ground arith)
join-Seg s a [] (z ∷ zs) n b d o g = (
  ground arith,
  ground arith,
  Seg-frame s z zs b a z z a d.0.1 d.1.1.0 (λ e. o.1.0 (sym e)) g.2.2,
)
join-Seg s a (y ∷ ys) zs n b d o g = (
  ground (arith, g.0, Off-last a y ys (n ∷ zs) d.0),
  ground (arith, g.1, Off-first_after y n ys zs b d.1.0 (λ e. o.0 (sym e))),
  join-Seg s y ys zs n b d.1 o.1 g.2,
)

-- Putting a new node between the last of the first nodes and the first of the others.
pub insert-Seg :
    (s : Nodes) (a : ℕ) (ys zs : List ℕ) (n b : ℕ)
    → Distinct (a ∷ (ys ++ zs))
    → Off b (ys ++ zs)
    → Off n (a ∷ (ys ++ zs))
    → b ≢ n
    → Seg s a (ys ++ zs) b
    → Seg (list_insert_ s n (last a ys) (first zs b)) a (ys ++ n ∷ zs) b
unfolding list_insert_
insert-Seg s a [] [] n b d o off bn g =
    (ground arith, ground (arith, off), (ground (arith, off), ground (arith, bn)))
insert-Seg s a [] (z ∷ zs) n b d o off bn g = (
  ground arith,
  ground (arith, off),
  (
    ground (arith, off),
    ground (arith, off),
    Seg-frame (set_next (set_prev s z n) n z) z zs b a n n a d.0 off.1.1 bn
        (Seg-frame s z zs b n z z n off.1 d.1.0 (λ e. o.0 (sym e)) g.2),
  ),
)
insert-Seg s a (y ∷ ys) zs n b d o off bn g = (
  ground (arith, g.0, Off-last a y ys zs d.0, off.0),
  ground (arith, g.1, Off-first y ys zs b d.1.0 (λ e. o.0 (sym e)), off.1.0),
  insert-Seg s y ys zs n b d.1 o.1 off.1 bn g.2,
)
