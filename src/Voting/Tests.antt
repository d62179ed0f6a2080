-- ===== src/Voting/Tests.antt =====
-- Voting System/vote.c at concrete numbers and lines.
use network_programming_c.Prelude.{ℕ, zero, suc, List, [], ◌∷◌, ◌++◌, codes}
use network_programming_c.MyShell.Lines.{newline}

abbrev draws : ℕ → List ℕ
draws zero = 3 ∷ 4 ∷ 7 ∷ []
draws (suc n) = 2 ∷ 5 ∷ []

abbrev lines : List (List ℕ)
lines =
    (codes "vote" ++ newline ∷ [])
    ∷ (codes "help" ++ newline ∷ [])
    ∷ (codes "vote" ++ newline ∷ [])
    ∷ (codes "exit" ++ newline ∷ [])
    ∷ (codes "vote" ++ newline ∷ [])
    ∷ []

-- The allocator gives 24 bytes at least.
abbrev usable : ℕ → ℕ
usable n = 24
