-- ===== src/MyShell/LineTests.antt =====
-- MyShell/shell.c: lines of input, and redirections, on concrete inputs.
use network_programming_c.Prelude.{
  ℕ, ◌<◌, ◌≡◌, refl, some, [], ◌∷◌, ◌++◌, length, arith, codes, str_eq,
}
use network_programming_c.MyShell.Lines.{newline, lineget}
use network_programming_c.MyShell.Lines.Buffer.{IsLine, lineget_lem}
use network_programming_c.MyShell.Redirect.{redirection, to_queues, to_memory, is_operator}
use network_programming_c.MyShell.Redirect.Outputs.{
  NoOperator, commas, IsOutput, redirection-commas,
}

lineget_lem_example :
    let (b, rest) = lineget (codes "ls" ++ newline ∷ codes "pwd") in
    IsLine [] (codes "ls" ++ newline ∷ codes "pwd") b.line rest × (length b.line < b.lenmax)
lineget_lem_example = lineget_lem (codes "ls" ++ newline ∷ codes "pwd")

-- The allocator gives 24 bytes at least.
abbrev usable : ℕ → ℕ
usable n = 24

cat-NoOperator : NoOperator (codes "cat" ∷ codes "a" ∷ [])
unfolding is_operator str_eq
cat-NoOperator = (refl, (refl, tt))

sort-IsOutput : IsOutput usable (codes "sort" ∷ codes "-r" ∷ [])
unfolding str_eq
sort-IsOutput = (((refl, refl), ((refl, refl), tt)), omega arith, omega arith)

wc-IsOutput : IsOutput usable (codes "wc" ∷ [])
unfolding str_eq
wc-IsOutput = (((refl, refl), tt), omega arith, omega arith)

redirection-commas_example :
    (redirection usable
        ((codes "cat" ∷ codes "a" ∷ [])
          ++ codes "##" ∷ ((codes "sort" ∷ codes "-r" ∷ []) ++ commas ((codes "wc" ∷ []) ∷ [])))
        0
      ≡ some (
          to_queues
            (codes "cat" ∷ codes "a" ∷ [])
            ((codes "sort" ∷ codes "-r" ∷ []) ∷ (codes "wc" ∷ []) ∷ [])))
    × (redirection usable
          ((codes "cat" ∷ codes "a" ∷ [])
            ++ codes "SS" ∷ ((codes "sort" ∷ codes "-r" ∷ []) ++ commas ((codes "wc" ∷ []) ∷ [])))
          0
        ≡ some (
            to_memory
              (codes "cat" ∷ codes "a" ∷ [])
              ((codes "sort" ∷ codes "-r" ∷ []) ∷ (codes "wc" ∷ []) ∷ [])))
redirection-commas_example =
    redirection-commas usable (codes "cat" ∷ codes "a" ∷ []) (codes "sort" ∷ codes "-r" ∷ [])
      ((codes "wc" ∷ []) ∷ []) cat-NoOperator refl (omega arith) (omega arith) sort-IsOutput
      (wc-IsOutput, tt)
