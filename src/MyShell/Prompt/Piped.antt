-- ===== src/MyShell/Prompt/Piped.antt =====
-- MyShell/shell.c: a line with pipes, from the input to the commands, and what they do.
use network_programming_c.Prelude.{
  ℕ, ◌+◌, ◌≡◌, ◌≢◌, refl, ap, ◌∙◌, Bool, true, false, Option, none, some, ◌>>=◌, List, [], ◌∷◌,
  ◌++◌, length, get_or, if◌then◌else◌, str_eq, codes, Ensures, bind-Ensures, Bool-cases, inl, inr,
  All, ◌<◌, ◌==◌, Ensures-some, subst,
}
use network_programming_c.MyShell.Jobs.Laws.{IsJobSet}
use network_programming_c.MyShell.Jobs.Reap.{unfinished}
use network_programming_c.MyShell.Lines.{newline}
use network_programming_c.MyShell.Args.{is_empty}
use network_programming_c.MyShell.Args.Words.{line, words}
use network_programming_c.MyShell.Pipes.{
  Word, PipeType, no_pipe, pipe, count_pipes, all_fit, row_size, Filter, no_commands, is_separator,
  input_redirected, filter_from, cut_command, copy_command, pipe_filter, output_redirected,
  output_redirection,
}
use network_programming_c.MyShell.Pipes.Split.{
  IsPlain, IsPart, join, parts, pipe_filter-join, input_redirected-join,
}
use network_programming_c.MyShell.Builtin.{not_builtin, builtin}
use network_programming_c.MyShell.Prompt.{
  Shell, World, pipes, refuses, run_plain, pipe_type, run_pipes, last_word, run_line,
}
use network_programming_c.MyShell.Prompt.Plain.{IsProgram, run_line-words}
use network_programming_c.MyShell.Descriptors.{terminal, at}
use network_programming_c.MyShell.Execute.{Machine, System}
use network_programming_c.MyShell.Execute.Loop.{pipeline, fits}
use network_programming_c.MyShell.Execute.Redirected.{ends, execute_pipe}
use network_programming_c.MyShell.Execute.Screen.{Idle, execute_pipe-pipeline}

-- No input redirection, and no error of one.
abbrev HasNoInput : Filter → Type 0
HasNoInput f = (f.redirection_in_pipe ≡ false) × (f.bad_redirect_pipe ≡ false)

cut_command-HasNoInput :
    (args : List Word) (i : ℕ) (f : Filter)
    → HasNoInput f
    → (g : Filter) → cut_command args i f ≡ some g
    → HasNoInput g
unfolding cut_command
cut_command-HasNoInput args i f h g e =
    Ensures-some HasNoInput
      (copy_command args (if f.last_pipe == 0 then 0 else f.last_pipe + 1) i >>= λ c.
        some (record f { commands = f.commands ++ c ∷ []; last_pipe = i }))
      g
      (bind-Ensures HasNoInput
        (copy_command args (if f.last_pipe == 0 then 0 else f.last_pipe + 1) i)
        (λ c. some (record f { commands = f.commands ++ c ∷ []; last_pipe = i })) (λ c k. h))
      e

filter_from-HasNoInput :
    (args : List Word) (i : ℕ) (ws : List Word) (f : Filter)
    → ((j : ℕ) → input_redirected args j ≡ false)
    → HasNoInput f
    → Ensures HasNoInput (filter_from args i ws f)
unfolding filter_from
filter_from-HasNoInput args i [] f q h = h
filter_from-HasNoInput args i (w ∷ ws) f q h =
    let f1 : Filter = record f { pipearg_count = f.pipearg_count + 1 } in
    let f2 : Filter = record f1 { redirection_in_pipe = false } in
    elim (Bool-cases (is_separator w)) [
      | inl e ↦
          rw (e, q i, h.0)
            (bind-Ensures HasNoInput (cut_command args i f2) (λ g. filter_from args (i + 1) ws g)
              (λ g k.
                filter_from-HasNoInput args (i + 1) ws g q
                  (cut_command-HasNoInput args i f2 (refl, h.1) g k)))
      | inr e ↦ rw (e) (filter_from-HasNoInput args (i + 1) ws f1 q h)
    ]

pipe_filter-HasNoInput :
    (args : List Word)
    → ((j : ℕ) → input_redirected args j ≡ false)
    → Ensures HasNoInput (pipe_filter args)
unfolding pipe_filter
pipe_filter-HasNoInput args q = filter_from-HasNoInput args 0 args no_commands q (refl, refl)

-- With two commands or more, one was cut before the last.
abbrev at_least_two : (cs : List (List Word)) → Bool
at_least_two [] = false
at_least_two (c ∷ []) = false
at_least_two (c ∷ d ∷ cs) = true

nonempty :
    (pre : List (List Word)) (u : List Word) (c d : List Word) (cs : List (List Word))
    (b p o : Bool) (k l : ℕ)
    → if◌then◌else◌ {A = Option (List (List Word) × Bool × ℕ)} b (some (pre ++ u ∷ [], p, k)) none
      ≡ some (c ∷ d ∷ cs, o, l)
    → is_empty pre ≡ false
nonempty (x ∷ pre) u c d cs b p o k l e = refl
nonempty [] u c d cs false p o k l e = cc
nonempty [] u c d cs true p o k l e =
    let h : false ≡ true = ap (λ r. elim r [ none ↦ false | some (x, y, z) ↦ at_least_two x ]) e in
    cc

commands-nonempty :
    (args : List Word) (f : Filter) (c d : List Word) (cs : List (List Word)) (o : Bool) (l : ℕ)
    → output_redirection args f ≡ some (c ∷ d ∷ cs, o, l)
    → is_empty f.commands ≡ false
unfolding output_redirection
commands-nonempty args f c d cs o l e = nonempty f.commands _ c d cs _ _ o _ l e

-- What is behind the filter, for the answer of `output_redirection`.
run_pipes-cut :
    (w : World) (s : Shell) (args : List Word) (c d : List Word) (cs : List (List Word)) (o : Bool)
    (l : ℕ)
    → (m : Option Filter) → Ensures HasNoInput m
    → (m >>= λ f. output_redirection args f) ≡ some (c ∷ d ∷ cs, o, l)
    → (m >>= λ f.
        if f.bad_redirect_pipe
        then some (record s { bad_redirect_pipe = true; last_pipe = 0 }, refuses)
        else (if is_empty f.commands
            then run_plain w (record s { last_pipe = f.last_pipe }) args
            else (output_redirection args f >>= λ (cs, out, freed).
                some (
                  record s { last_pipe = 0 },
                  pipes (pipe_type args) cs f.redirection_in_pipe out,
                ))))
      ≡ some (record s { last_pipe = 0 }, pipes (pipe_type args) (c ∷ d ∷ cs) false o)
run_pipes-cut w s args c d cs o l none h e = cc
run_pipes-cut w s args c d cs o l (some f) h e =
    let k : output_redirection args f ≡ some (c ∷ d ∷ cs, o, l) = e in
    rw (k, commands-nonempty args f c d cs o l k, h.0, h.1) refl

module _ (w : World) (s : Shell) (c u : List Word) (r : List (Word × List Word)) where
  -- A line of commands with separators between them is run as these commands.
  run_pipes-join :
      (sep : Word)
      → c ≢ []
      → All IsPlain c
      → length c < row_size
      → All IsPart ((sep, u) ∷ r)
      → s.bad_redirect_pipe ≡ false
      → s.last_pipe ≡ 0
      → run_pipes w s (c ++ join ((sep, u) ∷ r))
        ≡ some (
          record s { last_pipe = 0 },
          pipes
              (pipe_type (c ++ join ((sep, u) ∷ r)))
              (c ∷ u ∷ parts r)
              false
              (output_redirected (c ++ join ((sep, u) ∷ r)) (length (c ++ join ((sep, u) ∷ r)))),
        )
  unfolding run_pipes pipe_filter
  run_pipes-join sep z a h b x y =
      let args : List Word = c ++ join ((sep, u) ∷ r) in
      let g : record no_commands {
        last_pipe = s.last_pipe;
        bad_redirect_pipe = s.bad_redirect_pipe;
      }
          ≡ no_commands =
        λ i. record no_commands { last_pipe = y i; bad_redirect_pipe = x i } in
      rw (g) (
        run_pipes-cut w s args c u (parts r) (output_redirected args (length args)) (length args)
          (pipe_filter args)
          (pipe_filter-HasNoInput args (λ i. input_redirected-join c sep u r i a b))
          (pipe_filter-join c sep u r z a h b))

-- The kind of the last separator is that of the others.
count_pipes-words :
    (n : ℕ) (t : PipeType) (c rest : List Word)
    → All IsPlain c
    → count_pipes n t (c ++ rest) ≡ count_pipes n t rest
unfolding count_pipes
count_pipes-words n t [] rest a = refl
count_pipes-words n t (w ∷ c) rest a = rw (a.0.0) (count_pipes-words n t c rest a.1)

count_pipes-bars :
    (n : ℕ) (r : List (Word × List Word))
    → All IsPart r
    → All (λ p. str_eq p.0 (codes "|") ≡ true) r
    → (count_pipes n pipe (join r)).1 ≡ pipe
unfolding count_pipes
count_pipes-bars n [] a b = refl
count_pipes-bars n ((sep, c) ∷ r) a b =
    rw (a.0.0, b.0, count_pipes-words (n + 1) pipe c (join r) a.0.1.0)
      (count_pipes-bars (n + 1) r a.1 b.1)

pipe_type-bars :
    (c u : List Word) (r : List (Word × List Word))
    → All IsPlain c
    → All IsPart ((codes "|", u) ∷ r)
    → All (λ p. str_eq p.0 (codes "|") ≡ true) r
    → pipe_type (c ++ join ((codes "|", u) ∷ r)) ≡ pipe
unfolding pipe_type count_pipes str_eq
pipe_type-bars c u r a b d =
    ap (λ x. x.1) (count_pipes-words 0 no_pipe c (join ((codes "|", u) ∷ r)) a)
    ∙ ap (λ x. x.1) (count_pipes-words 1 pipe u (join r) b.0.1.0)
    ∙ count_pipes-bars 1 r b.1 d

-- The words of a line are those of commands with `|` between them, and none of it is for the shell
-- itself, or redirected.
pub record IsPiped (w : World) (argv : List Word) (c u : List Word) (r : List (Word × List Word))
    : Type 0 where
  pub parted : argv ≡ c ++ join ((codes "|", u) ∷ r)
  pub own : builtin w.home argv ≡ some not_builtin
  pub first :
      (str_eq (get_or argv 0 []) (codes "fg") ≡ false)
      × (str_eq (get_or argv 0 []) (codes "bg") ≡ false)
  pub last : str_eq (last_word argv) (codes "&") ≡ false
  pub front : (c ≢ []) × (All IsPlain c × (length c < row_size))
  pub other_commands : All IsPart ((codes "|", u) ∷ r)
  pub bars : All (λ p. str_eq p.0 (codes "|") ≡ true) r
  pub no_output : output_redirected argv (length argv) ≡ false
  pub few : length argv < row_size

-- A line of commands with `|` between them is typed at the prompt. It is not for the shell itself,
-- no flag is left from the lines before it, every separator of it is a `|`, it has fewer than 20
-- words in all, so that `output_redirection` stays in the block of the row that it has freed, the
-- first command is not empty, no word of a command is a separator or `<`, and the output is not
-- redirected. Each word fits, with a zero behind it, the string that `malloc` was
-- asked one byte for. What each command but the last writes fits a pipe, and the shell has its
-- input and its output open, to the terminal, and no end of a pipe that can be written to. Then
-- the line is cut into commands for the branch of `executePipe` that makes pipes, and there they
-- come to their end with the output of the last on the screen, where each reads what the one
-- before it writes and the first has no input.
pub run_line-pipeline :
    (w : World) (shell : ℕ) (s : Shell) (v : List ℕ) (ws : List (ℕ × List ℕ)) (c u : List Word)
    (r : List (Word × List Word)) (m : Machine) (y : System)
    → IsJobSet shell s.jobs
    → IsProgram s v ws
    → all_fit w.usable (v ∷ words ws) ≡ true
    → IsPiped w (v ∷ words ws) c u r
    → Idle y
    → at y.table 1 ≡ some terminal
    → fits m none (c ∷ u ∷ parts r) ≡ true
    → (cs : List (List Word)) × (s1 : Shell) × (y1 : System) × (run_line w s
          (line v ws ++ newline ∷ [])
        ≡ some (s1, pipes pipe cs false false))
      × (execute_pipe m false false cs y ≡ ends y1)
      × (y1.screen ≡ y.screen ++ pipeline m none (c ∷ u ∷ parts r))
run_line-pipeline w shell s v ws c u r m y j p room q i t f =
    let s0 : Shell = record s { jobs = unfinished w.done s.jobs; is_daemon = false } in
    let (y1, e, o, x, z) = execute_pipe-pipeline m y c (u ∷ parts r) i t f in
    let no : output_redirected (c ++ join ((codes "|", u) ∷ r))
          (length (c ++ join ((codes "|", u) ∷ r)))
        ≡ false =
      subst (λ l. output_redirected l (length l) ≡ false) q.parted q.no_output in
    let k =
      run_pipes-join w s0 c u r (codes "|") q.front.0 q.front.1.0 q.front.1.1 q.other_commands
        p.pipes.0 p.pipes.1 in
    (
      c ∷ u ∷ parts r,
      record s0 { last_pipe = 0 },
      y1,
      run_line-words w shell s v ws j p room q.own q.first q.last
          ∙ ap (λ l. run_pipes w s0 l) q.parted
          ∙ k
          ∙ ap
              (λ b. some (
                record s0 { last_pipe = 0 },
                pipes b (c ∷ u ∷ parts r) false (
                    output_redirected (c ++ join ((codes "|", u) ∷ r))
                      (length (c ++ join ((codes "|", u) ∷ r)))),
              ))
              (pipe_type-bars c u r q.front.1.0 q.other_commands q.bars)
          ∙ ap (λ b. some (record s0 { last_pipe = 0 }, pipes pipe (c ∷ u ∷ parts r) false b)) no,
      e,
      o,
    )
