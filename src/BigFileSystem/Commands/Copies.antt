-- ===== src/BigFileSystem/Commands/Copies.antt =====
-- BigFileSystem/client.c, filenameserver.c and dataserver.c: a `cp` that a user types at a client,
-- and what the two servers do with it.
use network_programming_c.Prelude.{ℕ, ◌+◌, ◌<◌, ◌≡◌, Bool, true, List, [], ◌∷◌, length, codes}
use network_programming_c.MyShell.Args.Words.{line, IsWord}
use network_programming_c.BigFileSystem.Commands.{op_rows}
use network_programming_c.BigFileSystem.Commands.Tokens.{Fits}

-- The line; the destination has the newline at its end.
abbrev pub typed : List ℕ → List ℕ → List ℕ
typed source target = line (codes "cp") ((0, source) ∷ (0, target) ∷ [])

-- The file is there, the words have no spaces, and all buffers have room.
pub record IsCopy (opens : List ℕ → Bool) (source target : List ℕ) : Type 0 where
  pub found : opens source ≡ true
  pub from : IsWord (0, source) × Fits source
  pub to : IsWord (0, target) × Fits target
  pub room : length (typed source target) + 1 < op_rows
