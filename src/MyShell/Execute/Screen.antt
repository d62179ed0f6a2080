-- ===== src/MyShell/Execute/Screen.antt =====
-- `executePipe` as a whole: a line of commands with `|` between them, without and with files.
use network_programming_c.Prelude.{
  ℕ, ◌+◌, ◌≡◌, ◌≢◌, refl, sym, ◌∙◌, Bool, true, false, none, some, List, [], ◌∷◌, ◌++◌, length,
  arith, inl, str_eq, codes, if◌then◌else◌,
}
use network_programming_c.MyShell.Pipes.{Word}
use network_programming_c.MyShell.Redirect.{is_output}
use network_programming_c.MyShell.Descriptors.{
  End, terminal, output_file, Table, at, lowest, alloc, close, dup2, dup, writes_to, count_open,
}
use network_programming_c.MyShell.Descriptors.Laws.{
  at-alloc, at-alloc_open, open_other, at-dup2, at_other-close, at_open-dup, at-dup, count_open-dup,
  writes_to-dup, writes_to-alloc,
}
use network_programming_c.MyShell.Execute.{Machine, System, Out, no_redirect, to_fd, is_more}
use network_programming_c.MyShell.Execute.Opened.{Target, Apart}
use network_programming_c.MyShell.Execute.Step.{Ready}
use network_programming_c.MyShell.Execute.Loop.{pipeline, fits, pipe_loop-Done}
use network_programming_c.MyShell.Execute.Redirected.{
  ends, saved, restore, after_loop, run_pipe, redirect_last, redirect_output, find_operator,
  execute_pipe, with_last, last_command,
}

-- The shell at its prompt: its input and its output are open, and it can write to no pipe.
pub record Idle (s : System) : Type 0 where
  pub stdin : End
  pub stdin_open : at s.table 0 ≡ some stdin
  pub stdout : End
  pub stdout_open : at s.table 1 ≡ some stdout
  pub no_writers : (k : ℕ) → writes_to s.table k ≡ false

-- The table behind the two calls of `dup`.
abbrev pub saving : Table → Table
saving t = dup (dup t 0) 1

pub saving-keeps : (t : Table) (i : ℕ) (x : End) → at t i ≡ some x → at (saving t) i ≡ some x
saving-keeps t i x h = at_open-dup (dup t 0) 1 i x (at_open-dup t 0 i x h)

pub saving-Idle : (s : System) → Idle s → Idle (record s { table = saving s.table })
saving-Idle s r = record {
  stdin = r.stdin;
  stdin_open = saving-keeps s.table 0 r.stdin r.stdin_open;
  stdout = r.stdout;
  stdout_open = saving-keeps s.table 1 r.stdout r.stdout_open;
  no_writers = λ k. writes_to-dup (dup s.table 0) 1 k (writes_to-dup s.table 0 k (r.no_writers k));
}

count_open-saving : (s : System) → Idle s → count_open (saving s.table) ≡ count_open s.table + 2
count_open-saving s r = omega (
  arith,
  count_open-dup s.table 0 r.stdin r.stdin_open,
  count_open-dup (dup s.table 0) 1 r.stdout (at_open-dup s.table 0 1 r.stdout r.stdout_open),
)

-- The loop starts with descriptor 0, which its first child closes.
pub Idle-Ready :
    (s : System) (out : Out) (e : End)
    → Idle s
    → Target s.table out e
    → Apart out 0
    → Ready s 0 none out e
Idle-Ready s out e r t a = record {
  stdin = r.stdin;
  stdin_open = r.stdin_open;
  stdout = r.stdout;
  stdout_open = r.stdout_open;
  no_writers = r.no_writers;
  target = t;
  apart_0 = a;
  apart = a;
  feeds = inl (refl, refl);
}

-- A line of commands with `|` between them, none redirected, where what each but the last writes
-- fits a pipe, and the shell has its input and its output open, to the terminal, and no end of a
-- pipe that can be written to. Then it comes to its end with the output of the last command on the
-- screen, where each reads what the one before it writes and the first has no input; the shell has
-- one more descriptor open for each command, and two more for the line.
pub execute_pipe-pipeline :
    (m : Machine) (s : System) (c : List Word) (cs : List (List Word))
    → Idle s
    → at s.table 1 ≡ some terminal
    → fits m none (c ∷ cs) ≡ true
    → (s1 : System) × (execute_pipe m false false (c ∷ cs) s ≡ ends s1)
      × (s1.screen ≡ s.screen ++ pipeline m none (c ∷ cs))
      × (s1.written ≡ s.written)
      × (count_open s1.table ≡ count_open s.table + (length (c ∷ cs) + 2))
unfolding execute_pipe redirect_last run_pipe
execute_pipe-pipeline m s c cs r t f =
    let s0 : System = record s { table = saving s.table } in
    let q =
      Idle-Ready s0 no_redirect terminal (saving-Idle s r) (saving-keeps s.table 1 terminal t) tt in
    let (s1, e, d) = pipe_loop-Done m s0 0 none no_redirect terminal (c ∷ cs) q tt refl f in
    let k : count_open s1.table ≡ count_open s.table + (length (c ∷ cs) + 2) =
      omega (arith, d.opens, count_open-saving s r) in
    (s1, rw (e, after_loop, restore) refl, d.wrote.0, d.wrote.1, k)

-- A descriptor that is restored stands for what was saved.
pub at-restored :
    (t : Table) (fd i : ℕ) (x : End)
    → i ≢ fd
    → at t fd ≡ some x
    → at (close (dup2 t fd i) fd) i ≡ some x
at-restored t fd i x h e = at_other-close (dup2 t fd i) fd i h ∙ at-dup2 t fd i x e

is_more-with_last :
    (b : List Word) (cs : List (List Word)) → is_more cs ≡ true → is_more (with_last b cs) ≡ true
is_more-with_last b [] h = h
is_more-with_last b (c ∷ []) h = refl
is_more-with_last b (c ∷ d ∷ cs) h = refl

-- With `>` or `>>` and a file that can be written in the last command, no `<`, and what each command
-- but the last writes fitting a pipe, the output of the pipeline is written to the file, at its end
-- for `>>`, and not to the screen, and behind the line the shell's own output is what it was. The
-- shell has its input and its output open and no end of a pipe that can be written to.
pub execute_pipe-to_file :
    (m : Machine) (s : System) (cs : List (List Word)) (before : List Word) (op f : Word)
    → Idle s
    → is_more cs ≡ true
    → find_operator is_output (last_command cs) ≡ some (before, op, some f)
    → m.can_write f ≡ true
    → fits m none (with_last before cs) ≡ true
    → (s1 : System) × (execute_pipe m false true cs s ≡ ends s1)
      × (s1.written
          ≡ s.written
            ++ (
              f,
              if str_eq op (codes ">") then false else true,
              pipeline m none (with_last before cs),
            )
              ∷ [])
      × (s1.screen ≡ s.screen)
      × (at s1.table 1 ≡ at s.table 1)
unfolding execute_pipe redirect_last redirect_output run_pipe
execute_pipe-to_file m s cs before op f r n g w h =
    let a : Bool = if str_eq op (codes ">") then false else true in
    let t : Table = saving s.table in
    let i = saving-Idle s r in
    let fd : ℕ = lowest t in
    let t1 : Table = alloc t (output_file f a) in
    let s0 : System = record s { table = t1 } in
    let idle : Idle s0 = record {
      stdin = i.stdin;
      stdin_open = at-alloc_open t (output_file f a) 0 i.stdin i.stdin_open;
      stdout = i.stdout;
      stdout_open = at-alloc_open t (output_file f a) 1 i.stdout i.stdout_open;
      no_writers = λ k. writes_to-alloc t (output_file f a) k (i.no_writers k) refl;
    } in
    let not_0 : fd ≢ 0 = λ e. open_other t 0 i.stdin i.stdin_open (sym e) in
    let not_1 : fd ≢ 1 = λ e. open_other t 1 i.stdout i.stdout_open (sym e) in
    let q =
      Idle-Ready s0 (to_fd fd) (output_file f a) idle (at-alloc t (output_file f a), not_0, not_1)
        not_0 in
    let (s1, e, d) =
      pipe_loop-Done m s0 0 none (to_fd fd) (output_file f a) (with_last before cs) q tt
        (is_more-with_last before cs n) h in
    let o : at (dup s.table 0) 1 ≡ some r.stdout = at_open-dup s.table 0 1 r.stdout r.stdout_open in
    let save : ℕ = lowest (dup s.table 0) in
    let back : at s1.table save ≡ some r.stdout =
      d.keeps save r.stdout
        (at-alloc_open t (output_file f a) save r.stdout (at-dup (dup s.table 0) 1 r.stdout o)) in
    (
      record s1 { table = close (dup2 s1.table save 1) save },
      rw (g, w, e, o, after_loop, restore, saved) refl,
      d.wrote.1,
      d.wrote.0,
      at-restored s1.table save 1 r.stdout (open_other (dup s.table 0) 1 r.stdout o) back
          ∙ sym r.stdout_open,
    )
