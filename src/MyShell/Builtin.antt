-- ===== src/MyShell/Builtin.antt =====
-- MyShell/shell.c: `builtin`, the commands that the shell does itself, and `execute_child`, which
-- looks for the program of every other. ClusterShell/clustershell_client.c has the same functions.
use network_programming_c.Prelude.{
  ℕ, Bool, ◌&&◌, Option, none, some, List, [], ◌∷◌, ◌++◌, ◌==◌, if◌then◌else◌, get_or, drop, str_eq,
  codes, map,
}

-- What `builtin` does: it returns 0 and has changed nothing; it returns 0, `ignorePATH` is set and
-- the first argument begins with its second byte; it returns 1 and has printed a message; it
-- returns 1 and has called `chdir`.
pub data Builtin : Type 0 where
  not_builtin : Builtin
  runs_here : List (List ℕ) → Builtin
  needs_name : Builtin
  changes_directory : List ℕ → Builtin

-- A `~` at the front stands for the home directory.
unfoldable pub expand_home : List ℕ → List ℕ → List ℕ
expand_home home [] = []
expand_home home (c ∷ s) = if c == b'~' then home ++ s else c ∷ s

unfoldable pub dot_slash : List ℕ → Builtin
dot_slash a = if get_or a 2 0 == 0 then needs_name else runs_here (drop 1 a ∷ [])

-- The arguments are those before the NULL. `none` is a read through the NULL of an empty vector.
unfoldable pub builtin : List ℕ → List (List ℕ) → Option Builtin
unfolding expand_home dot_slash
builtin home [] = none
builtin home (a ∷ []) =
    some (if get_or a 0 0 == b'.' && get_or a 1 0 == b'/' then dot_slash a else not_builtin)
builtin home (a ∷ b ∷ argv) =
    some (if str_eq a (codes "cd") then changes_directory (expand_home home b) else not_builtin)

-- The file names that the child tries in turn: the first that can be executed is run. With no
-- directory in `PATH` the child tries none.
unfoldable pub execute_child :
    Bool → List (List ℕ) → List ℕ → List (List ℕ) → Option (List (List ℕ))
execute_child ignore_path path cwd [] = none
execute_child ignore_path path cwd (a ∷ argv) =
    some (if ignore_path then (cwd ++ a) ∷ [] else map (λ p. p ++ a) path)
