-- ===== src/Tests/Ring.antt =====
-- include/xfutil/list.h at concrete inputs.
use xfutil.Base.{arith, [], ◌∷◌}
use xfutil.Ring.{Nodes, list_init, list_add_head, list_add_tail, list_delete}
use xfutil.Ring.Segment.{Off}
use xfutil.Ring.Shape.{Shows, list_init-Shows, list_add-Shows, list_delete-Shows}

abbrev empty : Nodes
empty = list_init (record { next = λ a. 0; prev = λ a. 0 }) 8

empty-Shows : Shows empty 8 []
empty-Shows = list_init-Shows (record { next = λ a. 0; prev = λ a. 0 }) 8

abbrev one : Nodes
one = list_add_head empty 16 8

one-Shows : Shows one 8 (16 ∷ [])
one-Shows = (list_add-Shows empty 8 16 [] empty-Shows ((λ e. omega (arith, e)), tt)).0

new-Off : Off 24 (8 ∷ 16 ∷ [])
new-Off = ((λ e. omega (arith, e)), ((λ e. omega (arith, e)), tt))

list_delete-Shows_example : Shows (list_delete (list_add_tail one 24 8) 16) 8 (24 ∷ [])
list_delete-Shows_example =
    list_delete-Shows (list_add_tail one 24 8) 8 16 [] (24 ∷ [])
      (list_add-Shows one 8 24 (16 ∷ []) one-Shows new-Off).1
