-- ===== src/StopAndWait/LinkedList.antt =====
-- N-Channel-StopNWait/linked_list.c: the list of packet numbers. A pointer is the list from there
-- on, and NULL the empty list. The printing of a list is not modelled.
pub mod Queue
use network_programming_c.Prelude.{ℕ, List, [], ◌∷◌}

pub record Item : Type 0 where
  pub acked : ℕ
  pub data_item : ℕ

abbrev pub allocate_list : ℕ → Item
allocate_list value = record { acked = 0; data_item = value }

-- The loop to the last node, from the node `temp` with the nodes `rest` behind it, and the node
-- that goes behind the last.
unfoldable pub insert_behind : Item → List Item → ℕ → List Item
insert_behind temp [] item = temp ∷ allocate_list item ∷ []
insert_behind temp (n ∷ rest) item = temp ∷ insert_behind n rest item

unfoldable pub linkedlist_insert : List Item → ℕ → List Item
unfolding insert_behind
linkedlist_insert [] item = allocate_list item ∷ []
linkedlist_insert (l ∷ []) item = l ∷ allocate_list item ∷ []
linkedlist_insert (l ∷ n ∷ rest) item = insert_behind l (n ∷ rest) item

-- The only node of a list is taken off but not freed.
unfoldable pub linkedlist_remove : List Item → List Item
linkedlist_remove [] = []
linkedlist_remove (l ∷ []) = []
linkedlist_remove (l ∷ n ∷ rest) = n ∷ rest
