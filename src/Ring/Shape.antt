-- ===== src/Ring/Shape.antt =====
-- include/xfutil/list.h: each operation on a list is the operation on the sequence of its nodes.
use xfutil.Base.{
  ℕ, ◌≡◌, ◌≢◌, ap, sym, subst, ◌∙◌, arith, Bool, true, false, ◌==◌, List, [], ◌∷◌, ◌++◌, append-nil,
}
use xfutil.Ring.{
  Nodes, list_init, list_empty, list_head, list_tail, list_insert_, list_add_head, list_add_tail,
  list_delete_, list_delete,
}
use xfutil.Ring.Segment.{Off, Distinct, Seg, last, first, join-Seg, insert-Seg}

-- The list shows these nodes.
pub record Shows (s : Nodes) (list : ℕ) (xs : List ℕ) : Type 0 where
  pub distinct : Distinct (list ∷ xs)
  pub ring : Seg s list xs list

Off-insert : (x n : ℕ) (ys zs : List ℕ) → n ≢ x → Off x (ys ++ zs) → Off x (ys ++ n ∷ zs)
Off-insert x n [] zs h o = (h, o)
Off-insert x n (y ∷ ys) zs h o = (o.0, Off-insert x n ys zs h o.1)

Off-remove : (x n : ℕ) (ys zs : List ℕ) → Off x (ys ++ n ∷ zs) → Off x (ys ++ zs)
Off-remove x n [] zs o = o.1
Off-remove x n (y ∷ ys) zs o = (o.0, Off-remove x n ys zs o.1)

Distinct-insert :
    (n : ℕ) (ys zs : List ℕ) → Off n (ys ++ zs) → Distinct (ys ++ zs) → Distinct (ys ++ n ∷ zs)
Distinct-insert n [] zs o d = (o, d)
Distinct-insert n (y ∷ ys) zs o d =
    (Off-insert y n ys zs (λ e. o.0 (sym e)) d.0, Distinct-insert n ys zs o.1 d.1)

Distinct-remove : (n : ℕ) (ys zs : List ℕ) → Distinct (ys ++ n ∷ zs) → Distinct (ys ++ zs)
Distinct-remove n [] zs d = d.1
Distinct-remove n (y ∷ ys) zs d = (Off-remove y n ys zs d.0, Distinct-remove n ys zs d.1)

insert-Shows :
    (s : Nodes) (list n : ℕ) (ys zs : List ℕ)
    → Shows s list (ys ++ zs)
    → Off n (list ∷ (ys ++ zs))
    → Shows (list_insert_ s n (last list ys) (first zs list)) list (ys ++ n ∷ zs)
insert-Shows s list n ys zs v off = record {
  distinct = Distinct-insert n (list ∷ ys) zs off v.distinct;
  ring = insert-Seg s list ys zs n list v.distinct v.distinct.0 off off.0 v.ring;
}

Seg-next : (s : Nodes) (a : ℕ) (xs : List ℕ) (b : ℕ) → Seg s a xs b → s.next a ≡ first xs b
Seg-next s a [] b g = g.0
Seg-next s a (x ∷ xs) b g = g.0

Seg-prev : (s : Nodes) (a : ℕ) (xs : List ℕ) (b : ℕ) → Seg s a xs b → s.prev b ≡ last a xs
Seg-prev s a [] b g = g.1
Seg-prev s a (x ∷ xs) b g = Seg-prev s x xs b g.2

-- The neighbours of a node of the segment.
Seg-around :
    (s : Nodes) (a : ℕ) (ys : List ℕ) (n : ℕ) (zs : List ℕ) (b : ℕ)
    → Seg s a (ys ++ n ∷ zs) b
    → (s.prev n ≡ last a ys) × (s.next n ≡ first zs b)
Seg-around s a [] n zs b g = (g.1, Seg-next s n zs b g.2)
Seg-around s a (y ∷ ys) n zs b g = Seg-around s y ys n zs b g.2

-- `ListInit` makes an empty list.
pub list_init-Shows : (s : Nodes) (list : ℕ) → Shows (list_init s list) list []
unfolding list_init
list_init-Shows s list = record { distinct = (tt, tt); ring = (ground arith, ground arith) }

abbrev pub is_nil : List ℕ → Bool
is_nil [] = true
is_nil (x ∷ xs) = false

first-is_nil : (list : ℕ) (xs : List ℕ) → Off list xs → (first xs list == list) ≡ is_nil xs
first-is_nil list [] o = ground arith
first-is_nil list (x ∷ xs) o = ground (arith, o.0)

-- `ListHead` and `ListTail` of a list that shows `xs` are the first and the last of them, or the list
-- itself if there are none, which `ListEmtpy` tells.
pub list_head_tail-Shows :
    (s : Nodes) (list : ℕ) (xs : List ℕ)
    → Shows s list xs
    → (list_head s list ≡ first xs list)
      × (list_tail s list ≡ last list xs)
      × (list_empty s list ≡ is_nil xs)
unfolding list_head list_tail list_empty
list_head_tail-Shows s list xs v =
    let head = Seg-next s list xs list v.ring in
    (
      head,
      Seg-prev s list xs list v.ring,
      ap (λ h. h == list) head ∙ first-is_nil list xs v.distinct.0,
    )

list_add_head-Shows :
    (s : Nodes) (list n : ℕ) (xs : List ℕ)
    → Shows s list xs
    → Off n (list ∷ xs)
    → Shows (list_add_head s n list) list (n ∷ xs)
unfolding list_add_head
list_add_head-Shows s list n xs v off =
    rw (Seg-next s list xs list v.ring) (insert-Shows s list n [] xs v off)

list_add_tail-Shows :
    (s : Nodes) (list n : ℕ) (xs : List ℕ)
    → Shows s list xs
    → Off n (list ∷ xs)
    → Shows (list_add_tail s n list) list (xs ++ n ∷ [])
unfolding list_add_tail
list_add_tail-Shows s list n xs v off =
    let all : xs ≡ xs ++ [] = sym (append-nil xs) in
    subst (λ p. Shows (list_insert_ s n p list) list (xs ++ n ∷ []))
      (sym (Seg-prev s list xs list v.ring))
      (insert-Shows s list n xs [] (subst (Shows s list) all v)
        (subst (λ ys. Off n (list ∷ ys)) all off))

-- Of a node that is not in the list, `ListAddHead` puts it before the nodes that the list shows, and
-- `ListAddTail` behind them.
pub list_add-Shows :
    (s : Nodes) (list n : ℕ) (xs : List ℕ)
    → Shows s list xs
    → Off n (list ∷ xs)
    → Shows (list_add_head s n list) list (n ∷ xs)
      × Shows (list_add_tail s n list) list (xs ++ n ∷ [])
list_add-Shows s list n xs v off =
    (list_add_head-Shows s list n xs v off, list_add_tail-Shows s list n xs v off)

-- `ListDelete` of a node takes it out of the nodes that its list shows.
pub list_delete-Shows :
    (s : Nodes) (list n : ℕ) (ys zs : List ℕ)
    → Shows s list (ys ++ n ∷ zs)
    → Shows (list_delete s n) list (ys ++ zs)
unfolding list_delete list_delete_
list_delete-Shows s list n ys zs v =
    rw ((Seg-around s list ys n zs list v.ring).0, (Seg-around s list ys n zs list v.ring).1)
      (record {
        distinct = Distinct-remove n (list ∷ ys) zs v.distinct;
        ring = join-Seg s list ys zs n list v.distinct v.distinct.0 v.ring;
      })
