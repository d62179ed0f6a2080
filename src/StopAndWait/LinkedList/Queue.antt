-- ===== src/StopAndWait/LinkedList/Queue.antt =====
-- N-Channel-StopNWait/linked_list.c: sequences of insertions and removals.
use network_programming_c.Prelude.{
  ℕ, zero, suc, ◌≡◌, refl, ap, ◌∙◌, List, [], ◌∷◌, ◌++◌, map, append_assoc, append-nil, drop,
}
use network_programming_c.StopAndWait.LinkedList.{
  Item, allocate_list, insert_behind, linkedlist_insert, linkedlist_remove,
}

insert_behind-end :
    (t : Item) (rest : List Item) (item : ℕ)
    → insert_behind t rest item ≡ (t ∷ rest) ++ allocate_list item ∷ []
unfolding insert_behind
insert_behind-end t [] item = refl
insert_behind-end t (n ∷ rest) item = ap (λ l. t ∷ l) (insert_behind-end n rest item)

insert-end : (l : List Item) (item : ℕ) → linkedlist_insert l item ≡ l ++ allocate_list item ∷ []
unfolding linkedlist_insert
insert-end [] item = refl
insert-end (l ∷ []) item = refl
insert-end (l ∷ n ∷ rest) item = insert_behind-end l (n ∷ rest) item

-- A sequence of insertions, and one of removals.
unfoldable pub insert_all : List Item → List ℕ → List Item
insert_all l [] = l
insert_all l (i ∷ items) = insert_all (linkedlist_insert l i) items

unfoldable pub remove_times : ℕ → List Item → List Item
remove_times zero l = l
remove_times (suc n) l = remove_times n (linkedlist_remove l)

insert_all-end :
    (l : List Item) (items : List ℕ) → insert_all l items ≡ l ++ map allocate_list items
unfolding insert_all
insert_all-end l [] = rw (append-nil l) refl
insert_all-end l (i ∷ items) =
    rw
      (
        insert-end l i,
        insert_all-end (l ++ allocate_list i ∷ []) items,
        append_assoc l (allocate_list i ∷ []) (map allocate_list items),
      )
      refl

remove_drop : (l : List Item) → linkedlist_remove l ≡ drop 1 l
unfolding linkedlist_remove
remove_drop [] = refl
remove_drop (x ∷ []) = refl
remove_drop (x ∷ n ∷ rest) = refl

remove_times-drop : (n : ℕ) (l : List Item) → remove_times n l ≡ drop n l
unfolding remove_times
remove_times-drop zero l = refl
remove_times-drop (suc n) [] = rw (remove_drop [], remove_times-drop n []) (empty n)
  where
    empty : (n : ℕ) → drop n (◌++◌ {A = Item} [] []) ≡ []
    empty zero = refl
    empty (suc n) = refl
remove_times-drop (suc n) (x ∷ l) = rw (remove_drop (x ∷ l), remove_times-drop n l) refl

-- Items that are inserted come out first in, first out: after `n` removals the nodes of the items
-- behind the first `n` are left, in the order in which the items were inserted, none acknowledged.
pub remove_times-insert_all :
    (n : ℕ) (items : List ℕ)
    → remove_times n (insert_all [] items) ≡ drop n (map allocate_list items)
remove_times-insert_all n items =
    remove_times-drop n (insert_all [] items) ∙ ap (λ l. drop n l) (insert_all-end [] items)
