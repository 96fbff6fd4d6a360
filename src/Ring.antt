-- ===== src/Ring.antt =====
-- include/xfutil/list.h: the circular list of nodes that the user owns. A node is its address, and
-- the fields of all nodes are two functions. A list is its own node, which is not one of its elements.
pub mod Segment
pub mod Shape
use xfutil.Base.{ℕ, Bool, ◌==◌, if◌then◌else◌}

pub record Nodes : Type 0 where
  pub next : ℕ → ℕ
  pub prev : ℕ → ℕ

-- `node->next = to` and `node->prev = to`.
abbrev pub set_next : Nodes → ℕ → ℕ → Nodes
set_next s node to = record s { next = λ a. if a == node then to else s.next a }

abbrev pub set_prev : Nodes → ℕ → ℕ → Nodes
set_prev s node to = record s { prev = λ a. if a == node then to else s.prev a }

-- `ListInit(list)`
unfoldable pub list_init : Nodes → ℕ → Nodes
list_init s list = set_prev (set_next s list list) list list

-- `ListEmtpy(list)`
unfoldable pub list_empty : Nodes → ℕ → Bool
list_empty s list = s.next list == list

-- `ListHead(list)` and `ListTail(list)`.
unfoldable pub list_head : Nodes → ℕ → ℕ
list_head s list = s.next list

unfoldable pub list_tail : Nodes → ℕ → ℕ
list_tail s list = s.prev list

-- `ListInsert_(new_node, prev, next)`
unfoldable pub list_insert_ : Nodes → ℕ → ℕ → ℕ → Nodes
list_insert_ s new_node prev next =
    set_next (set_prev (set_next (set_prev s next new_node) new_node next) new_node prev) prev
      new_node

-- `ListAddHead(new_node, list)` and `ListAddTail(new_node, list)`.
unfoldable pub list_add_head : Nodes → ℕ → ℕ → Nodes
unfolding list_insert_
list_add_head s new_node list = list_insert_ s new_node list (s.next list)

unfoldable pub list_add_tail : Nodes → ℕ → ℕ → Nodes
unfolding list_insert_
list_add_tail s new_node list = list_insert_ s new_node (s.prev list) list

-- `ListDelete_(prev, next)`
unfoldable pub list_delete_ : Nodes → ℕ → ℕ → Nodes
list_delete_ s prev next = set_next (set_prev s next prev) prev next

-- `ListDelete(node)`
unfoldable pub list_delete : Nodes → ℕ → Nodes
unfolding list_delete_
list_delete s node = list_delete_ s (s.prev node) (s.next node)
