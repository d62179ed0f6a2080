-- ===== src/Engine/Completions.antt =====
-- MyShell/engine.c: `recursiveInsert` and `completeWord` beside `searchTrie`.
use network_programming_c.Prelude.{
  ℕ, ◌+◌, ◌≡◌, refl, Bool, true, false, ◌&&◌, ◌||◌, Option, none, some, List, [], ◌∷◌, ◌++◌, ◌==◌,
  arith, str_eq,
}
use network_programming_c.Engine.{
  Trie, node, Children, end, null, child, alphabet, recursive_insert, insert_children,
}

-- The word is in the list.
abbrev pub listed : List ℕ → List (List ℕ) → Bool
listed w [] = false
listed w (x ∷ xs) = str_eq w x || listed w xs

-- The word begins with the prefix.
starts : List ℕ → List ℕ → Bool
starts [] w = true
starts (a ∷ p) [] = false
starts (a ∷ p) (b ∷ w) = a == b && starts p w

listed-append :
    (w : List ℕ) (xs ys : List (List ℕ)) → listed w (xs ++ ys) ≡ (listed w xs || listed w ys)
listed-append w [] ys = refl
listed-append w (x ∷ xs) ys = ground (arith, listed-append w xs ys)

starts-longer : (p x w : List ℕ) → starts p w ≡ false → starts (p ++ x) w ≡ false
unfolding starts
starts-longer [] x w h = cc
starts-longer (a ∷ p) x [] h = refl
starts-longer (a ∷ p) x (b ∷ w) h = ground (arith, starts-longer p x w)

starts_other : (p w : List ℕ) → starts p w ≡ false → str_eq w p ≡ false
unfolding starts str_eq
starts_other [] w h = cc
starts_other (a ∷ p) [] h = refl
starts_other (a ∷ p) (b ∷ w) h = ground (arith, starts_other p w)

-- Every word of a subtree begins with what leads to it.
mutual
  unfolding recursive_insert

  subtree-starts :
      (t : Trie) (p w : List ℕ) → starts p w ≡ false → listed w (recursive_insert t p) ≡ false
  subtree-starts (node true cs) p w h = rw (starts_other p w h) (children-starts cs 0 p w h)
  subtree-starts (node false cs) p w h = children-starts cs 0 p w h

  children-starts :
      (cs : Children) (j : ℕ) (p w : List ℕ)
      → starts p w ≡ false
      → listed w (insert_children cs j p) ≡ false
  children-starts end j p w h = refl
  children-starts (null cs) j p w h = children-starts cs (j + 1) p w h
  children-starts (child t cs) j p w h =
      rw
        (
          listed-append w (recursive_insert t (p ++ alphabet j ∷ []))
              (insert_children cs (j + 1) p),
          subtree-starts t (p ++ alphabet j ∷ []) w (starts-longer p (alphabet j ∷ []) w h),
          children-starts cs (j + 1) p w h,
        )
        refl

-- What a child that may be missing lists of a word behind `op` and its letter.
abbrev from_child : Option Trie → List ℕ → ℕ → List ℕ → Bool
from_child none op d v = false
from_child (some u) op d v = listed (op ++ d ∷ v) (recursive_insert u (op ++ d ∷ []))
