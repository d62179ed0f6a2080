-- ===== src/MyShell/Execute/Step.antt =====
-- One command of `executePipe`: what it reads and where its output goes.
use network_programming_c.Prelude.{
  ℕ, zero, suc, ◌<◌, ◌≡◌, ◌≢◌, refl, sym, ap, ◌∙◌, ◌⊎◌, inl, inr, Bool, true, false, Option, none,
  some, ◌>>=◌, List, [], ◌∷◌, ◌++◌, length, get_or, set, leb, arith, length-append,
}
use network_programming_c.MyShell.Pipes.{Word}
use network_programming_c.MyShell.Descriptors.{
  End, read_end, write_end, Table, at, close, writes_to,
}
use network_programming_c.MyShell.Execute.{
  Content, Machine, System, Out, no_redirect, cannot_open, to_fd, input_at, write_out, run_child,
  child_table, with_pipe, pipe_step,
}
use network_programming_c.MyShell.Execute.Opened.{
  opened, p0, p1, closed, opened-keeps, other_p0, other_p1, at-opened-p1, closed-keeps,
  at-closed-p0, writes_to-closed, writes_to-opened, Target, Apart, writes_to-child_table,
  at_0-child_first, at_0-child_next, at_1-child_more, at_1-child_last,
}

-- What the next child is to read: nothing at descriptor 0, or what stands in a pipe.
abbrev pub Feeds : System → ℕ → Option Content → Type 0
Feeds s fd_in input =
    ((fd_in ≡ 0) × (input ≡ none))
    ⊎ ((n : ℕ) × (at s.table fd_in ≡ some (read_end n))
        × (fd_in ≢ 0)
        × (fd_in ≢ 1)
        × (n < length s.pipes)
        × (input ≡ some (get_or s.pipes n [])))

-- The state between two commands: the shell's own input and output are open, it can write to no
-- pipe, and the last output has its target.
pub record Ready (s : System) (fd_in : ℕ) (input : Option Content) (out : Out) (e : End)
    : Type 0 where
  pub stdin : End
  pub stdin_open : at s.table 0 ≡ some stdin
  pub stdout : End
  pub stdout_open : at s.table 1 ≡ some stdout
  pub no_writers : (k : ℕ) → writes_to s.table k ≡ false
  pub target : Target s.table out e
  pub apart_0 : Apart out 0
  pub apart : Apart out fd_in
  pub feeds : Feeds s fd_in input

pub get_or-append :
    (xs ys : List Content) (i : ℕ) → i < length xs → get_or (xs ++ ys) i [] ≡ get_or xs i []
get_or-append [] ys i h = absurd (omega arith)
get_or-append (x ∷ xs) ys zero h = refl
get_or-append (x ∷ xs) ys (suc i) h = get_or-append xs ys i (omega arith)

pub get_or-end : (xs : List Content) (y : Content) → get_or (xs ++ y ∷ []) (length xs) [] ≡ y
get_or-end [] y = refl
get_or-end (x ∷ xs) y = get_or-end xs y

pub set-end : (xs : List Content) (y z : Content) → set (xs ++ y ∷ []) (length xs) z ≡ xs ++ z ∷ []
set-end [] y z = refl
set-end (x ∷ xs) y z = ap (λ l. x ∷ l) (set-end xs y z)

module _ (m : Machine) (s : System) (fd_in : ℕ) (input : Option Content) (out : Out) (e : End)
    (r : Ready s fd_in input out e) where
  -- The shell's table while the child runs, and `p`.
  abbrev pub top : Table
  top = opened s.table (length s.pipes)

  abbrev pub q0 : ℕ
  q0 = p0 s.table (length s.pipes)

  abbrev pub q1 : ℕ
  q1 = p1 s.table (length s.pipes)

  -- The table of the child for a command.
  abbrev pub child : Bool → Table
  child more = child_table top fd_in q0 q1 more out

  p0_other_0 : q0 ≢ 0
  p0_other_0 q = other_p0 s.table (length s.pipes) 0 r.stdin r.stdin_open (sym q)

  p0_other_1 : q0 ≢ 1
  p0_other_1 q = other_p0 s.table (length s.pipes) 1 r.stdout r.stdout_open (sym q)

  p1_other_0 : q1 ≢ 0
  p1_other_0 q = other_p1 s.table (length s.pipes) 0 r.stdin r.stdin_open (sym q)

  -- The child reads what it is to read, and does not wait.
  input_at-child :
      (more : Bool) → input_at m (with_pipe s) (child more) (at (child more) 0) ≡ some input
  unfolding input_at with_pipe
  input_at-child more = elim r.feeds [
    | inl (f, i) ↦
        let a : at (child_table top 0 q0 q1 more out) 0 ≡ none =
          at_0-child_first top q0 q1 more out p0_other_0 r.apart_0 in
        rw (f, i, a) refl
    | inr (n, o, f, g, l, i) ↦
        let a : at (child more) 0 ≡ some (read_end n) =
          at_0-child_next top fd_in q0 q1 more out (read_end n) p0_other_0 r.apart_0 f
            (opened-keeps s.table (length s.pipes) fd_in (read_end n) o) in
        let w : writes_to top n ≡ false =
          writes_to-opened s.table (length s.pipes) n l (r.no_writers n) in
        let v : writes_to (child more) n ≡ false =
          writes_to-child_table top fd_in q0 q1 more out n w in
        rw (a, i, w, v, get_or-append s.pipes ([] ∷ []) n l) refl
  ]

  open-fd_in : (x : End) × (at s.table fd_in ≡ some x)
  open-fd_in = elim r.feeds [
    | inl (f, i) ↦ (r.stdin, rw (f) r.stdin_open)
    | inr (n, o, f, g, l, i) ↦ (read_end n, o)
  ]

  fd_in_other_1 : fd_in ≢ 1
  fd_in_other_1 q = elim r.feeds [
    | inl (f, i) ↦ absurd (omega (arith, q, f))
    | inr (n, o, f, g, l, i) ↦ g q
  ]

  fd_in_other_q1 : q1 ≢ fd_in
  fd_in_other_q1 q = other_p1 s.table (length s.pipes) fd_in open-fd_in.0 open-fd_in.1 (sym q)

  Target-top : (o : Out) → Target s.table o e → Target top o e
  Target-top no_redirect h = opened-keeps s.table (length s.pipes) 1 e h
  Target-top cannot_open h = opened-keeps s.table (length s.pipes) 1 e h
  Target-top (to_fd fd) h = (opened-keeps s.table (length s.pipes) fd e h.0, h.1, h.2)

  -- The step is the child's writing of its output, and the closing of `p[1]`.
  pipe_step-writes :
      (cmd : List Word) (more : Bool) (x : End)
      → at (child more) 1 ≡ some x
      → pipe_step m s fd_in out cmd more ≡ (
          write_out m (with_pipe s) (some x) (m.runs cmd input) >>= λ s1.
          some (record s1 { table = close s1.table q1 }))
  unfolding pipe_step run_child with_pipe
  pipe_step-writes cmd more x h = rw (input_at-child more, h) refl

  -- A command that another follows writes to the pipe between them.
  pub pipe_step-more :
      (cmd : List Word)
      → pipe_step m s fd_in out cmd true ≡ (
          write_out m (with_pipe s) (some (write_end (length s.pipes))) (m.runs cmd input) >>= λ s1.
          some (record s1 { table = close s1.table q1 }))
  pipe_step-more cmd = pipe_step-writes cmd true (write_end (length s.pipes)) (
      at_1-child_more top fd_in q0 q1 out (write_end (length s.pipes)) p0_other_1 p1_other_0
        fd_in_other_q1 (at-opened-p1 s.table (length s.pipes)))

  -- The last command writes to the target.
  pub pipe_step-last :
      (cmd : List Word)
      → pipe_step m s fd_in out cmd false ≡ (
          write_out m (with_pipe s) (some e) (m.runs cmd input) >>= λ s1.
          some (record s1 { table = close s1.table q1 }))
  pipe_step-last cmd = pipe_step-writes cmd false e (
      at_1-child_last top fd_in q0 q1 out e p0_other_1 fd_in_other_1 r.apart
        (Target-top out r.target))

  -- The state behind a command that another follows.
  abbrev pub after : Content → System
  after o = record s { table = closed s.table (length s.pipes); pipes = s.pipes ++ o ∷ [] }

  pub pipe_step-fits :
      (cmd : List Word)
      → leb (length (m.runs cmd input)) m.capacity ≡ true
      → pipe_step m s fd_in out cmd true ≡ some (after (m.runs cmd input))
  unfolding with_pipe write_out
  pipe_step-fits cmd h =
      pipe_step-more cmd ∙ rw (h, get_or-end s.pipes [], set-end s.pipes [] (m.runs cmd input)) refl

  pub pipe_step-full :
      (cmd : List Word)
      → leb (length (m.runs cmd input)) m.capacity ≡ false
      → pipe_step m s fd_in out cmd true ≡ none
  unfolding with_pipe write_out
  pipe_step-full cmd h = pipe_step-more cmd ∙ rw (h) refl

  Target-after : (o : Out) → Target s.table o e → Target (closed s.table (length s.pipes)) o e
  Target-after no_redirect h = closed-keeps s.table (length s.pipes) 1 e h
  Target-after cannot_open h = closed-keeps s.table (length s.pipes) 1 e h
  Target-after (to_fd fd) h = (closed-keeps s.table (length s.pipes) fd e h.0, h.1, h.2)

  Apart-after : (o : Out) → Target s.table o e → Apart o q0
  Apart-after no_redirect h = tt
  Apart-after cannot_open h = tt
  Apart-after (to_fd fd) h = other_p0 s.table (length s.pipes) fd e h.0

  -- The next child reads what was written.
  pub after-Ready : (o : Content) → Ready (after o) q0 (some o) out e
  after-Ready o = record {
    stdin = r.stdin;
    stdin_open = closed-keeps s.table (length s.pipes) 0 r.stdin r.stdin_open;
    stdout = r.stdout;
    stdout_open = closed-keeps s.table (length s.pipes) 1 r.stdout r.stdout_open;
    no_writers = λ k. writes_to-closed s.table (length s.pipes) k (r.no_writers k);
    target = Target-after out r.target;
    apart_0 = r.apart_0;
    apart = Apart-after out r.target;
    feeds = inr (
      length s.pipes,
      at-closed-p0 s.table (length s.pipes),
      p0_other_0,
      p0_other_1,
      omega (arith, length-append s.pipes (o ∷ [])),
      ap some (sym (get_or-end s.pipes o)),
    );
  }
