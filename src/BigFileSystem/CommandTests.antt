-- ===== src/BigFileSystem/CommandTests.antt =====
-- The theorems on the commands and on the inodes at concrete inputs.
use network_programming_c.Prelude.{ℕ, Bool, List, codes, str_eq}

abbrev opens : List ℕ → Bool
opens file = str_eq file (codes "a")
