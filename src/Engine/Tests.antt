-- ===== src/Engine/Tests.antt =====
-- Runs of the trie, and its theorem at a concrete input.
use network_programming_c.Prelude.{
  false, ◌≡◌, refl, true, none, some, ◌>>=◌, [], ◌∷◌, codes, str_eq, arith, if◌then◌else◌,
}
use network_programming_c.Engine.{
  node, null, child, nulls, Trie, new_node, insert_trie, search_trie, complete_word,
}
use network_programming_c.Engine.Editor.{Editor}
use network_programming_c.Engine.Search.{IsTrie, new_node-IsTrie, insert_trie-search}

insert_trie-search_example :
    (u : Trie) × ((insert_trie new_node (codes "omg") ≡ some u)
      × (IsTrie u
          × (search_trie u (codes "om") ≡ (
              if str_eq (codes "om") (codes "omg")
              then some true
              else search_trie new_node (codes "om")))))
insert_trie-search_example =
    insert_trie-search new_node (codes "omg") (codes "om") new_node-IsTrie (omega arith)
      (omega arith)

-- `insertTrie` takes a space, and `searchTrie` does not.
space_test : (insert_trie new_node (codes "a b") >>= λ t. search_trie t (codes "a b")) ≡ none
unfolding insert_trie search_trie
space_test = refl

completions_test :
    (insert_trie new_node (codes "tea") >>= λ t.
    insert_trie t (codes "tad") >>= λ t. complete_word t (codes "t"))
    ≡ some (codes "tad" ∷ codes "tea" ∷ [])
unfolding insert_trie complete_word
completions_test = refl

-- The trie of the word "a".
abbrev word_a : Trie
word_a = node false (child (node true (nulls 26)) (nulls 26))

-- The trie of the word "ab".
abbrev word_ab : Trie
word_ab =
    node false (child (node false (null (child (node true (nulls 27)) (nulls 25)))) (nulls 26))

abbrev blank : Editor
blank = record {
  row = [];
  x = 0;
  k = 0;
  op = λ i. 7;
  tab_check = false;
  tab_count = 0;
  completion_arr = [];
  completion_count = 0;
  xpos = none;
}

-- The letter a was typed.
abbrev typed_a : Editor
typed_a = record blank { row = codes "a"; k = 1; op = λ i. b'a' }
