-- ===== src/ClusterShell/Node/Args.antt =====
-- ClusterShell/clustershell_client.c: `initArgs` and `getArgumentLength` of the node against those
-- of MyShell/shell.c, and the slots of its argument vector.
use network_programming_c.Prelude.{
  ℕ, ◌+◌, ◌≡◌, ◌≢◌, refl, sym, ap, ◌∙◌, Bool-cases, inl, inr, true, List, [], ◌∷◌, ◌++◌, ◌==◌,
  arith, length, All,
}
use network_programming_c.MyShell.Lines.{newline}
use network_programming_c.MyShell.Args.{
  space, peek, get_argument_length, Split, end_argument, init_step, init_from,
}
use network_programming_c.MyShell.Args.Words.{NoSpace, line, IsWord, words, init_from-line}
use network_programming_c.MyShell.Args.Slots.{
  one_if, init_from-length, separators, count_from-separators, count_from-newline,
}
use network_programming_c.ClusterShell.Node
use network_programming_c.ClusterShell.Node.{Filled, args_step, args_from}
use network_programming_c.MyShell.Args

-- The state of the splitter of the shell, in the daemon, with the same arguments.
abbrev in_daemon : Filled → Split
in_daemon (f, w) = record { is_daemon = true; filled = f; current = w }

end_argument-in_daemon : (t : Filled) → end_argument (in_daemon t) ≡ in_daemon (t.0 ++ t.1 ∷ [], [])
unfolding end_argument
end_argument-in_daemon ([], w) = refl
end_argument-in_daemon (x ∷ f, w) = refl

init_step-in_daemon :
    (t : Filled) (c d : ℕ) → init_step (in_daemon t) c d ≡ in_daemon (args_step t c d)
unfolding init_step args_step
init_step-in_daemon t c d = elim (Bool-cases (c == space)) [
  | inr e ↦ rw e refl
  | inl e ↦ elim (Bool-cases (d == space)) [
    | inl h ↦ rw (e, h) refl
    | inr h ↦ rw (e, h) (end_argument-in_daemon t)
  ]
]

init_from-in_daemon :
    (t : Filled) (s : List ℕ)
    → init_from (in_daemon t) s ≡ record { is_daemon = true; filled = args_from t s; current = [] }
unfolding init_from args_from
init_from-in_daemon (f, w) [] = refl
init_from-in_daemon t (c ∷ s) =
    rw (init_step-in_daemon t c (peek s)) (init_from-in_daemon (args_step t c (peek s)) s)

-- The node splits every line into the arguments that the shell splits it into when its flag
-- `is_daemon` is set already, and the shell leaves the flag.
pub split_args-shell :
    (s : List ℕ)
    → Args.split_args true s ≡ record { is_daemon = true; filled = Node.split_args s; current = [] }
unfolding Args.split_args Node.split_args
split_args-shell s = init_from-in_daemon ([], []) s

-- A line of words with spaces between them is split into these words, a `daemonize` too.
pub split_args-line :
    (w : List ℕ) (r : List (ℕ × List ℕ))
    → NoSpace w
    → All IsWord r
    → Node.split_args (line w r) ≡ w ∷ words r
unfolding Node.split_args
split_args-line w r h a =
    ap (λ t. t.filled)
      (sym (init_from-in_daemon ([], []) (line w r)) ∙ init_from-line true [] w r refl h a)

-- A line before its newline has exactly as many arguments as `getArgumentLength` says of the line
-- with its newline, so the NULL behind them is in the vector.
pub length-split_args :
    (s : List ℕ)
    → All (λ c. c ≢ 0) s
    → length (Node.split_args s) ≡ get_argument_length (s ++ newline ∷ [])
unfolding Node.split_args get_argument_length
length-split_args s a =
    let e : init_from (in_daemon ([], [])) s
        ≡ record { is_daemon = true; filled = args_from ([], []) s; current = [] } =
      init_from-in_daemon ([], []) s in
    let l : length (args_from ([], []) s) + 1 ≡ 0 + 1 + 1 + separators s =
      rw (sym (ap (λ t. length t.filled + one_if t.is_daemon) e))
        (init_from-length (in_daemon ([], [])) s) in
    omega (arith, l, count_from-separators 1 s a, count_from-newline 1 s)
