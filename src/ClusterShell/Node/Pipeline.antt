-- ===== src/ClusterShell/Node/Pipeline.antt =====
-- ClusterShell/clustershell_client.c: what `REPL` does with a line with a `|`.
use network_programming_c.Prelude.{
  ℕ, suc, ◌+◌, ◌-◌, ◌≤◌, ◌≡◌, ◌≢◌, refl, sym, ◌⊎◌, inl, inr, Bool, true, false, ◌&&◌, ◌||◌, ◌>>=◌,
  List, [], ◌∷◌, ◌++◌, length, take, ltb, leb, ◌==◌, if◌then◌else◌, str_eq, codes, arith, subst,
  length-take, Bool-cases, All, if-holds, str_eq→eq, get_or, drop, Yields, bind-Yields,
}
use network_programming_c.MyShell.Args.{is_empty, strings_fit, get_argument_length}
use network_programming_c.MyShell.Lines.{newline}
use network_programming_c.MyShell.Prompt.Plain.{cut_newline-end}
use network_programming_c.ClusterShell.Node.Args.{length-split_args}
use network_programming_c.MyShell.Pipes.{
  Word, Filter, no_commands, row_size, copy_command, cut_command, input_redirected,
}
use network_programming_c.MyShell.Builtin.{builtin}
use network_programming_c.ClusterShell.Node.{
  Repl, Ran, leaves, does, refuses, drops, launches, pipe_from, run_pipeline, run_vector,
  run_builtin, repl, split_args, init_args,
}

abbrev pub has_pipe : List Word → Bool
has_pipe [] = false
has_pipe (w ∷ ws) = str_eq w (codes "|") || has_pipe ws

-- A program is started.
abbrev pub starts : Ran → Bool
starts leaves = false
starts (does b) = false
starts refuses = false
starts (drops c) = false
starts (launches b a) = true

-- The filter has refused the line, or has cut a command from it.
abbrev IsCut : Filter → Type 0
IsCut f = (f.bad_redirect_pipe ≡ true) ⊎ (is_empty f.commands ≡ false)

never_empty : {A : Type 0} (xs : List A) (x : A) → is_empty (xs ++ x ∷ []) ≡ false
never_empty [] x = refl
never_empty (y ∷ xs) x = refl

cut_command-IsCut :
    (args : List Word) (i : ℕ) (f : Filter) → suc i ≤ row_size → Yields IsCut (cut_command args i f)
unfolding cut_command copy_command
cut_command-IsCut args i f h =
    let from : ℕ = if f.last_pipe == 0 then 0 else f.last_pipe + 1 in
    let e : ltb (i - from) row_size ≡ true = ground arith in
    rw e (inr (never_empty f.commands (take (i - from) (drop from args))))

keeps_pipe :
    (w : Word) (l : List Word)
    → str_eq w (codes "|") ≡ false
    → has_pipe (w ∷ l) ≡ true
    → has_pipe l ≡ true
keeps_pipe w l e h = rw (e) at h

pipe_from-IsCut :
    (args : List Word) (i : ℕ) (l : List Word) (f : Filter)
    → i + length l ≤ row_size
    → (has_pipe l ≡ true) ⊎ IsCut f
    → Yields IsCut (pipe_from args i l f)
unfolding pipe_from
pipe_from-IsCut args i [] f h (inl e) = absurd cc
pipe_from-IsCut args i [] f h (inr k) = k
pipe_from-IsCut args i (w ∷ l) f h k =
    let f1 : Filter = record f { pipearg_count = f.pipearg_count + 1 } in
    let r : Bool = input_redirected args i in
    elim (Bool-cases (str_eq w (codes "|"))) [
      | inr e ↦ rw e (
          pipe_from-IsCut args (i + 1) l f1 (omega arith)
            (elim k [ inl p ↦ inl (keeps_pipe w l e p) | inr p ↦ inr p ]))
      | inl e ↦ elim (Bool-cases (r && f.redirection_in_pipe)) [
        | inl b ↦ rw (e, b) (inl refl)
        | inr b ↦
            rw (e, b)
              (bind-Yields IsCut IsCut
                (cut_command args i
                  (record f1 { redirection_in_pipe = if r then true else f.redirection_in_pipe }))
                (λ t. pipe_from args (i + 1) l t) (cut_command-IsCut args i _ (omega arith))
                (λ t c. pipe_from-IsCut args (i + 1) l t (omega arith) (inr c)))
      ]
    ]

-- Nothing is started.
abbrev pub StartsNothing : Repl × Ran → Type 0
StartsNothing (r, ran) = starts ran ≡ false

run_pipeline-pipe :
    (r : Repl) (argv : List Word)
    → length argv ≤ row_size
    → has_pipe argv ≡ true
    → Yields StartsNothing (run_pipeline r argv)
unfolding run_pipeline
run_pipeline-pipe r argv h p =
    bind-Yields IsCut StartsNothing
      (pipe_from argv 0 argv
        (record no_commands { last_pipe = r.last_pipe; bad_redirect_pipe = r.bad_redirect_pipe }))
      _ (pipe_from-IsCut argv 0 argv _ (omega arith) (inl p))
      (λ f c. elim c [
        | inl b ↦ rw b refl
        | inr e ↦ rw e (if-holds (Yields StartsNothing) f.bad_redirect_pipe _ _ refl refl)
      ])

no_pipe : ¬ (has_pipe (codes "&" ∷ []) ≡ true)
unfolding str_eq
no_pipe e = cc

front-has_pipe :
    (w : Word) (ws : List Word)
    → str_eq (get_or (w ∷ ws) (length ws) []) (codes "&") ≡ true
    → has_pipe (w ∷ ws) ≡ true
    → has_pipe (take (length ws) (w ∷ ws)) ≡ true
front-has_pipe w [] e p =
    let q : w ≡ codes "&" = str_eq→eq w (codes "&") e in
    absurd (no_pipe (subst (λ v. has_pipe (v ∷ []) ≡ true) q p))
front-has_pipe w (v ∷ ws) e p = elim (Bool-cases (str_eq w (codes "|"))) [
  | inl b ↦ rw b refl
  | inr b ↦ rw b (front-has_pipe v ws e (keeps_pipe w (v ∷ ws) b p))
]

run_vector-pipe :
    (r : Repl) (argv : List Word)
    → length argv ≤ row_size
    → has_pipe argv ≡ true
    → Yields StartsNothing (run_vector r argv)
unfolding run_vector
run_vector-pipe r [] h p = absurd cc
run_vector-pipe r (w ∷ ws) h p =
    let m : suc (length ws) - 1 ≡ length ws = omega arith in
    elim (Bool-cases (str_eq (get_or (w ∷ ws) (length ws) []) (codes "&"))) [
      | inr e ↦ rw (m, e) (run_pipeline-pipe r (w ∷ ws) h p)
      | inl e ↦
          let t : length (take (length ws) (w ∷ ws)) ≤ row_size =
            omega (arith, length-take (length ws) (w ∷ ws)) in
          rw (m, e)
            (run_pipeline-pipe (record r { is_background = true }) (take (length ws) (w ∷ ws)) t
              (front-has_pipe w ws e p))
    ]

one_pipe : (w : Word) → has_pipe (w ∷ []) ≡ true → w ≡ codes "|"
one_pipe w h = elim (Bool-cases (str_eq w (codes "|"))) [
  | inl e ↦ str_eq→eq w (codes "|") e
  | inr e ↦ absurd (let k : false ≡ true = rw (e) at h in cc)
]

run_builtin-pipe :
    (home : List ℕ) (r : Repl) (argv : List Word)
    → length argv ≤ row_size
    → has_pipe argv ≡ true
    → Yields StartsNothing (builtin home argv >>= λ b. run_builtin r argv b)
unfolding builtin run_builtin
run_builtin-pipe home r [] h p = absurd cc
run_builtin-pipe home r (w ∷ []) h p =
    let e : w ≡ codes "|" = one_pipe w p in
    subst (λ v. Yields StartsNothing (builtin home (v ∷ []) >>= λ b. run_builtin r (v ∷ []) b))
      (sym e) (run_vector-pipe r (codes "|" ∷ []) h (subst (λ v. has_pipe (v ∷ []) ≡ true) e p))
run_builtin-pipe home r (w ∷ v ∷ ws) h p = elim (Bool-cases (str_eq w (codes "cd"))) [
  | inl e ↦ rw e refl
  | inr e ↦ rw e (run_vector-pipe r (w ∷ v ∷ ws) h p)
]

leb_eq : (n m : ℕ) → n ≡ m → leb n m ≡ true
leb_eq n m e = ground arith

-- A line of at most 20 words, one of them a `|`, each of which fits, with a zero behind it, the
-- string that `malloc` was asked one byte for, starts no program: either the line is refused, or
-- it does what a command of the node itself does, or its commands are cut and thrown away. And
-- `REPL` returns: it writes out of none of its vectors and strings.
pub repl-pipe :
    (usable : ℕ → ℕ) (home : List ℕ) (r : Repl) (s : List ℕ)
    → strings_fit usable 0 s ≡ true
    → All (λ c. c ≢ 0) s
    → All (λ c. c ≢ newline) s
    → length (split_args s) ≤ row_size
    → has_pipe (split_args s) ≡ true
    → Yields StartsNothing (repl usable home r (s ++ newline ∷ []))
unfolding repl init_args
repl-pipe usable home r s f z n h p =
    let l : leb (length (split_args s)) (get_argument_length (s ++ newline ∷ [])) ≡ true =
      leb_eq _ _ (length-split_args s z) in
    elim (Bool-cases (str_eq s (codes "exit"))) [
      | inl e ↦ rw (cut_newline-end s n, e) refl
      | inr e ↦ rw (cut_newline-end s n, e, f, l) (run_builtin-pipe home r (split_args s) h p)
    ]
