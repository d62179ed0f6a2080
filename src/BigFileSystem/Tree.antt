-- ===== src/BigFileSystem/Tree.antt =====
-- BigFileSystem/filenameserver.c: `find_node`, and `insert_node` as far as it comes; dataserver.c
-- has the same functions. A read through NULL, and a write through a pointer that is not set, is
-- `none`.
use network_programming_c.Prelude.{
  ℕ, Bool, true, false, Option, none, some, ◌>>=◌, List, [], ◌∷◌, if◌then◌else◌, str_eq,
}
use network_programming_c.BigFileSystem.{path_split}

-- A node with its first son and its next sibling; `nil` is NULL.
pub data Tree : Type 0 where
  nil : Tree
  node : List ℕ → Bool → Tree → Tree → Tree

abbrev pub slash : ℕ
slash = b'/'

-- The global `root_node`, with the first son of the root where there is one: it is NULL, since
-- `init_filetree` is never called.
abbrev pub root_node : Option Tree
root_node = none

-- The inner loop of `find_node`: the first son of the node with this value.
unfoldable pub seek : List ℕ → Tree → Option Tree
seek name nil = none
seek name (node value is_file son sibling) =
    let rest = seek name sibling in if str_eq value name then some son else rest

-- `node->isFile`.
unfoldable pub is_file_of : Tree → Option Bool
is_file_of nil = none
is_file_of (node value is_file son sibling) = some is_file

-- The loop over the names. At the end `node` is the first son of the last node that was found.
unfoldable pub find_from : Tree → List (List ℕ) → Option Bool
unfolding seek is_file_of
find_from t [] = is_file_of t
find_from t (name ∷ names) = elim (seek name t) [
  | none ↦ some false
  | some son ↦ find_from son names
]

unfoldable pub find_node : Option Tree → List ℕ → Option Bool
unfolding find_from
find_node root path = path_split path slash >>= λ names. root >>= λ t. find_from t names

-- The new node has a pointer `value` that nothing sets, and the value is copied through it.
unfoldable pub init_treenode : List ℕ → Bool → Option Tree
init_treenode val is_file = none

-- Up to the new node, behind which it does not come.
unfoldable pub insert_node : Option Tree → List ℕ → Bool → Option Bool
unfolding find_node init_treenode
insert_node root path is_file = find_node root path >>= λ found.
    if found then some false else (init_treenode path is_file >>= λ new. some true)
