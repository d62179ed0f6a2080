-- ===== src/BigFileSystem.antt =====
-- BigFileSystem/filenameserver.c: `path_split` and `hash`. The child modules are the file tree,
-- the tables of connections, the commands of the clients, and the inodes of a file.
pub mod Paths
pub mod Tree
pub mod Connections
pub mod Commands
pub mod Blocks
mod CommandTests
mod ServerTests
mod Tests
use network_programming_c.Prelude.{
  ℕ, zero, suc, ◌+◌, ◌*◌, ◌%◌, ◌^◌, Option, none, some, List, [], ◌∷◌, ◌++◌, length, ◌==◌, ltb,
  if◌then◌else◌,
}

-- The rows of `op` that are allocated; a row behind them is NULL, and a write through it is `none`.
abbrev pub rows : ℕ
rows = 256

-- The loop, with the rows that are filled and what row `j` holds up to `k`.
unfoldable pub split_from : ℕ → List (List ℕ) → List ℕ → List ℕ → Option (List (List ℕ))
split_from delim op current [] = some op
split_from delim op current (c ∷ path) =
    if ltb (length op) rows
    then (if c == delim
        then split_from delim (op ++ current ∷ []) [] path
        else split_from delim op (current ++ c ∷ []) path)
    else none

-- The strings before the NULL at row `j`.
unfoldable pub path_split : List ℕ → ℕ → Option (List (List ℕ))
unfolding split_from
path_split path delim = split_from delim [] [] path

-- `unsigned long` has 64 bits. `c` is a `char` of an ASCII string.
unfoldable pub hash_from : ℕ → List ℕ → ℕ
hash_from h [] = h
hash_from h (c ∷ str) = hash_from (((h * 2 ^ 5) % 2 ^ 64 + h + c) % 2 ^ 64) str

unfoldable pub hash : List ℕ → ℕ
unfolding hash_from
hash str = hash_from 5381 str
