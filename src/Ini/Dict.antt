-- ===== src/Ini/Dict.antt =====
-- include/xfutil/ini_file.h: lookups after a `Set`.
use xfutil.Base.{
  ◌≡◌, refl, sym, ap, ◌∙◌, arith, Bool, true, false, Bool-cases, inl, inr, ==_refl, if◌then◌else◌,
  List, [], ◌∷◌, Option, none, some,
}
use xfutil.Ini.{
  Bytes, same, lookup, insert, IniFileReader, section_or_empty, get_section, get, enter, set,
  set_in, set_current,
}

pub same_refl : (x : Bytes) → same x x ≡ true
same_refl [] = refl
same_refl (c ∷ cs) = rw (==_refl c) (same_refl cs)

pub same→≡ : (x y : Bytes) → same x y ≡ true → x ≡ y
same→≡ [] [] h = refl
same→≡ [] (d ∷ ds) h = cc
same→≡ (c ∷ cs) [] h = cc
same→≡ (c ∷ cs) (d ∷ ds) h = ground (arith, same→≡ cs ds)

apart : (k key key' : Bytes) → same k key ≡ false → same k key' ≡ true → same key key' ≡ true → ⊥
apart k key key' h e e' =
    let at : k ≡ key = same→≡ k key' e ∙ sym (same→≡ key key' e') in
    let both : true ≡ false = sym (same_refl key) ∙ sym (ap (λ x. same x key) at) ∙ h in cc

module _ {ℓ} {V : Type ℓ} where
  -- Two tests that do not hold both can be made in either order.
  if_swap :
      (a b : Bool) (x y : V) (o : Option V)
      → (a ≡ true → b ≡ true → ⊥)
      → (if a then some x else (if b then some y else o))
        ≡ (if b then some y else (if a then some x else o))
  if_swap true true x y o h = absurd (h refl refl)
  if_swap true false x y o h = refl
  if_swap false true x y o h = refl
  if_swap false false x y o h = refl

  -- A lookup after an insertion.
  pub lookup-insert :
      (key key' : Bytes) (value : V) (m : List (Bytes × V))
      → lookup key' (insert key value m) ≡ (if same key key' then some value else lookup key' m)
  unfolding insert
  lookup-insert key key' value [] = refl
  lookup-insert key key' value ((k, v) ∷ rest) = elim (Bool-cases (same k key)) [
    | inl here ↦
        let at : k ≡ key = same→≡ k key here in
        rw here
          (rw at (elim (Bool-cases (same key key')) [ inl e ↦ rw e refl | inr e ↦ rw e refl ]))
    | inr there ↦ rw there (
        ap (λ (o : Option V). if same k key' then some v else o) (lookup-insert key key' value rest)
        ∙ if_swap (same k key') (same key key') v value (lookup key' rest)
            (λ e e'. apart k key key' there e e'))
  ]

-- The value of a key in a section, as `GetSection` and then `Get` find it.
abbrev pub value_of : IniFileReader → Bytes → Bytes → Option Bytes
value_of r name key = get (section_or_empty (get_section r name)) key

set_in-value_of :
    (r : IniFileReader) (name key value name' key' : Bytes)
    → value_of (set_in r name key value) name' key' ≡ (
        if same name name'
        then (if same key key' then some value else value_of r name' key')
        else value_of r name' key')
unfolding set_in get_section get
set_in-value_of r name key value name' key' =
    rw
      (lookup-insert name name' (insert key value (section_or_empty (lookup name r.sections)))
        r.sections)
      (elim (Bool-cases (same name name')) [
        | inl e ↦ rw e (
            rw (lookup-insert key key' value (section_or_empty (lookup name r.sections)))
              (rw (same→≡ name name' e) refl))
        | inr e ↦ rw e refl
      ])

enter-value_of :
    (r : IniFileReader) (name name' key' : Bytes)
    → value_of (enter r name) name' key' ≡ value_of r name' key'
unfolding enter get_section get
enter-value_of r name name' key' =
    rw (lookup-insert name name' (section_or_empty (lookup name r.sections)) r.sections)
      (elim (Bool-cases (same name name')) [
        | inl e ↦ rw e (rw (same→≡ name name' e) refl)
        | inr e ↦ rw e refl
      ])

-- The section that a value is set in.
abbrev pub current : Option Bytes → Bytes
current none = []
current (some name) = name

set_current-value_of :
    (r : IniFileReader) (at : Option Bytes) (key value name' key' : Bytes)
    → value_of (set_current r at key value) name' key' ≡ (
        if same (current at) name'
        then (if same key key' then some value else value_of r name' key')
        else value_of r name' key')
set_current-value_of r none key value name' key' =
    set_in-value_of (enter r []) [] key value name' key' ∙ rw (enter-value_of r [] name' key') refl
set_current-value_of r (some name) key value name' key' =
    set_in-value_of r name key value name' key'

-- Setting a value changes what is found for that key in the current section, or in the one without a
-- name where none was entered, and nothing else; entering a section changes nothing that is found.
pub set-value_of :
    (r : IniFileReader) (key value name' key' : Bytes)
    → (value_of (set r key value) name' key' ≡ (
        if same (current r.curr_section) name'
        then (if same key key' then some value else value_of r name' key')
        else value_of r name' key'))
      × (value_of (enter r key) name' key' ≡ value_of r name' key')
unfolding set
set-value_of r key value name' key' =
    (set_current-value_of r r.curr_section key value name' key', enter-value_of r key name' key')
