-- ===== src/MyShell/Execute/Input.antt =====
-- `executePipe` with `<` in the first command, and the switch on the kind of separator.
use network_programming_c.Prelude.{
  ℕ, ◌≡◌, ◌≢◌, refl, sym, ◌∙◌, true, false, Option, none, some, List, ◌∷◌, ◌++◌, arith,
}
use network_programming_c.MyShell.Pipes.{Word}
use network_programming_c.MyShell.Descriptors.{
  End, terminal, input_file, Table, at, lowest, alloc, close, dup2, dup,
}
use network_programming_c.MyShell.Descriptors.Laws.{
  at-alloc, at-alloc_open, open_other, at-dup2, at_other-dup2, at_other-close, at_open-dup, at-dup,
  writes_to-dup2, writes_to-close, writes_to-alloc,
}
use network_programming_c.MyShell.Execute.{Content, Machine, System, no_redirect}
use network_programming_c.MyShell.Execute.Loop.{pipeline, fits, pipe_loop-Done}
use network_programming_c.MyShell.Execute.Redirected.{
  ends, saved, restore, after_loop, run_pipe, redirect_last, redirect_first, redirect_input,
  find_operator, is_input, execute_pipe,
}
use network_programming_c.MyShell.Execute.Screen.{
  Idle, saving, saving-keeps, saving-Idle, Idle-Ready, at-restored,
}

-- What the opening of the file does to the other descriptors.
redirect_input-keeps :
    (f : Word) (c : Option Content) (t : Table) (i : ℕ) (x : End)
    → i ≢ 0
    → at t i ≡ some x
    → at (redirect_input f c t) i ≡ some x
unfolding redirect_input
redirect_input-keeps f none t i x h e = e
redirect_input-keeps f (some c) t i x h e =
    at_other-close (dup2 (alloc t (input_file f)) (lowest t) 0) (lowest t) i (open_other t i x e)
    ∙ at_other-dup2 (alloc t (input_file f)) (lowest t) 0 i h
    ∙ at-alloc_open t (input_file f) i x e

redirect_input-Idle :
    (f : Word) (c : Option Content) (s : System)
    → Idle s
    → Idle (record s { table = redirect_input f c s.table })
unfolding redirect_input
redirect_input-Idle f none s r = r
redirect_input-Idle f (some c) s r =
    let t1 : Table = alloc s.table (input_file f) in
    let t2 : Table = dup2 t1 (lowest s.table) 0 in
    record {
      stdin = input_file f;
      stdin_open =
          at_other-close t2 (lowest s.table) 0 (open_other s.table 0 r.stdin r.stdin_open)
          ∙ at-dup2 t1 (lowest s.table) 0 (input_file f) (at-alloc s.table (input_file f));
      stdout = r.stdout;
      stdout_open =
          redirect_input-keeps f (some c) s.table 1 r.stdout (λ e. omega (arith, e)) r.stdout_open;
      no_writers = λ k. writes_to-close t2 (lowest s.table) k (
          writes_to-dup2 t1 (lowest s.table) 0 k
            (writes_to-alloc s.table (input_file f) k (r.no_writers k) refl));
    }

-- With `<` in the first command, a file that exists, no other redirection, and what each command but
-- the last writes fitting a pipe, the first command is run without input all the same, and not with
-- what the file holds. Behind the line the shell's own input is what it was. The shell has its input
-- and its output open, to the terminal, and no end of a pipe that can be written to.
pub execute_pipe-from_file :
    (m : Machine) (s : System) (c before : List Word) (cs : List (List Word)) (op f : Word)
    → Idle s
    → at s.table 1 ≡ some terminal
    → find_operator is_input c ≡ some (before, op, some f)
    → m.exists f ≡ true
    → fits m none (before ∷ cs) ≡ true
    → (s1 : System) × (execute_pipe m true false (c ∷ cs) s ≡ ends s1)
      × (s1.screen ≡ s.screen ++ pipeline m none (before ∷ cs))
      × (at s1.table 0 ≡ at s.table 0)
unfolding execute_pipe redirect_first redirect_last run_pipe
execute_pipe-from_file m s c before cs op f r t g x h =
    let i = saving-Idle s r in
    let t0 : Table = saving s.table in
    let s0 : System = record s { table = redirect_input f (m.contents f) t0 } in
    let o : at s0.table 1 ≡ some terminal =
      redirect_input-keeps f (m.contents f) t0 1 terminal (λ e. omega (arith, e))
        (saving-keeps s.table 1 terminal t) in
    let q =
      Idle-Ready s0 no_redirect terminal
        (redirect_input-Idle f (m.contents f) (record s { table = t0 }) i) o tt in
    let (s1, e, d) = pipe_loop-Done m s0 0 none no_redirect terminal (before ∷ cs) q tt refl h in
    let save : ℕ = lowest s.table in
    let other : 0 ≢ save = open_other s.table 0 r.stdin r.stdin_open in
    let back : at s1.table save ≡ some r.stdin = d.keeps save r.stdin (
      redirect_input-keeps f (m.contents f) t0 save r.stdin (λ e. other (sym e))
        (at_open-dup (dup s.table 0) 1 save r.stdin (at-dup s.table 0 r.stdin r.stdin_open))) in
    (
      record s1 { table = close (dup2 s1.table save 0) save },
      rw (g, x, e, r.stdin_open, after_loop, restore, saved) refl,
      d.wrote.0,
      at-restored s1.table save 0 r.stdin other back ∙ sym r.stdin_open,
    )
