-- ===== src/Engine.antt =====
-- MyShell/engine.c: the trie behind the word completion. `newNode`, `insertTrie`, `searchTrie`,
-- `recursiveInsert` and `completeWord`. A letter that has no child slot reads or writes outside of
-- the array of children, which is `none` here. The field `data` is never set or read. The editing loop
-- of `main` is in Editor.
pub mod Search
pub mod Completions
pub mod Editor
mod Tests
use network_programming_c.Prelude.{
  ℕ, zero, suc, ◌+◌, ◌-◌, Bool, true, false, ◌&&◌, ◌||◌, Option, none, some, ◌>>=◌, List, [], ◌∷◌,
  ◌++◌, ◌==◌, leb, if◌then◌else◌,
}

mutual
  pub data Trie : Type 0 where
    node : Bool → Children → Trie

  -- The array of the children, slot by slot.
  pub data Children : Type 0 where
    end : Children
    null : Children → Children
    child : Trie → Children → Children

abbrev pub nulls : ℕ → Children
nulls zero = end
nulls (suc n) = null (nulls n)

abbrev pub child_slots : ℕ
child_slots = 27

abbrev pub new_node : Trie
new_node = node false (nulls child_slots)

abbrev pub child_at : Children → ℕ → Option Trie
child_at end p = none
child_at (null cs) zero = none
child_at (null cs) (suc p) = child_at cs p
child_at (child t cs) zero = some t
child_at (child t cs) (suc p) = child_at cs p

abbrev pub set_child : Children → ℕ → Trie → Children
set_child end p u = end
set_child (null cs) zero u = child u cs
set_child (null cs) (suc p) u = null (set_child cs p u)
set_child (child t cs) zero u = child u cs
set_child (child t cs) (suc p) u = child t (set_child cs p u)

-- `c - 'a'`, when it is an index of the array.
unfoldable pub letter_position : ℕ → Option ℕ
letter_position c = if leb b'a' c && leb c b'{' then some (c - b'a') else none

-- The slot of a letter in `insertTrie`.
unfoldable pub insert_position : ℕ → Option ℕ
unfolding letter_position
insert_position c = if c == b' ' then some 26 else letter_position c

abbrev pub or_new : Option Trie → Trie
or_new none = new_node
or_new (some t) = t

unfoldable pub insert_trie : Trie → List ℕ → Option Trie
unfolding insert_position
insert_trie (node e cs) [] = some (node true cs)
insert_trie (node e cs) (c ∷ s) = insert_position c >>= λ p.
    insert_trie (or_new (child_at cs p)) s >>= λ t. some (node e (set_child cs p t))

-- The node that a string leads to: the walk at the start of `searchTrie` and `completeWord`.
-- `some none` where a child is missing.
unfoldable pub walk : Trie → List ℕ → Option (Option Trie)
unfolding letter_position
walk t [] = some (some t)
walk (node e cs) (c ∷ s) =
    letter_position c >>= λ p. elim (child_at cs p) [ none ↦ some none | some t ↦ walk t s ]

abbrev pub is_end : Trie → Bool
is_end (node e cs) = e

unfoldable pub search_trie : Trie → List ℕ → Option Bool
unfolding walk
search_trie t s = walk t s >>= λ r. some (elim r [ none ↦ false | some u ↦ is_end u ])

-- `alphabets[j]`.
abbrev pub alphabet : ℕ → ℕ
alphabet j = if j == 26 then b' ' else b'a' + j

-- `recursiveInsert`: the words of the subtree, each behind what leads to it, in the order of the
-- completion list. The children are visited once: the search for the first one that is there ends
-- with a `break`.
unfoldable mutual
  pub recursive_insert : Trie → List ℕ → List (List ℕ)
  recursive_insert (node e cs) op = (if e then op ∷ [] else []) ++ insert_children cs 0 op

  pub insert_children : Children → ℕ → List ℕ → List (List ℕ)
  insert_children end j op = []
  insert_children (null cs) j op = insert_children cs (j + 1) op
  insert_children (child t cs) j op =
      recursive_insert t (op ++ alphabet j ∷ []) ++ insert_children cs (j + 1) op

-- The completions of `str`, and none where no word starts with it.
unfoldable pub complete_word : Trie → List ℕ → Option (List (List ℕ))
unfolding walk recursive_insert
complete_word t str =
    walk t str >>= λ r. some (elim r [ none ↦ [] | some u ↦ recursive_insert u str ])
