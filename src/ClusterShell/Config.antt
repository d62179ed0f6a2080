-- ===== src/ClusterShell/Config.antt =====
-- ClusterShell/clustershell_server.c: the reading of ipmap.cfg in `main`. The strings `nodes[i]`
-- and `ip[i]` have room for what is copied to them, with zeros behind it.
pub mod Entries
use network_programming_c.Prelude.{
  ℕ, Bool, true, false, ◌&&◌, Option, none, some, ◌>>=◌, List, [], ◌∷◌, ◌++◌, length, ltb, ◌==◌,
  if◌then◌else◌, has_prefix, codes,
}

abbrev pub max_nodes : ℕ
max_nodes = 200

abbrev pub comma : ℕ
comma = b','

-- The loop over a line, with the bytes before `i`: what stands before and behind the first comma
-- that is not at the front.
unfoldable pub entry_from : List ℕ → List ℕ → Option (List ℕ × List ℕ)
entry_from seen [] = none
entry_from seen (c ∷ line) =
    let rest = entry_from (seen ++ c ∷ []) line in
    if ltb 0 (length seen) && c == comma then some (seen, line) else rest

-- The entry that a line adds. A name with nothing behind its comma is written to `nodes[curr]`, and
-- `curr` stays. `none` is a write out of the vectors.
unfoldable pub add_entry :
    List (List ℕ × List ℕ) → Option (List ℕ × List ℕ) → Option (List (List ℕ × List ℕ))
add_entry entries none = some entries
add_entry entries (some (name, [])) = if ltb (length entries) max_nodes then some entries else none
add_entry entries (some (name, c ∷ ip)) =
    if ltb (length entries) max_nodes then some (entries ++ (name, c ∷ ip) ∷ []) else none

-- The loop over the lines that `getline` returns. The entries are the pairs of `nodes[i]` and
-- `ip[i]` for `i < curr`.
unfoldable pub read_lines : List (List ℕ × List ℕ) → List (List ℕ) → Option (List (List ℕ × List ℕ))
unfolding entry_from add_entry
read_lines entries [] = some entries
read_lines entries (line ∷ lines) =
    let skipped = read_lines entries lines in
    if has_prefix (codes "# End") line
    then some entries
    else (if has_prefix (codes "#") line
        then skipped
        else (add_entry entries (entry_from [] line) >>= λ es. read_lines es lines))
