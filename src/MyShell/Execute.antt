-- ===== src/MyShell/Execute.antt =====
-- MyShell/shell.c: `executePipe` for commands that `|` parts, with the descriptors of the shell and
-- of the child that it forks for a command. The shell waits for a child before it forks the next.
-- The search of PATH in the child belongs to what a program does (`runs`); a `fork` succeeds.
pub mod Redirected
pub mod Opened
pub mod Step
pub mod Loop
pub mod Screen
pub mod Input
use network_programming_c.Prelude.{
  ℕ, ◌+◌, Bool, true, false, ◌||◌, Option, none, some, ◌>>=◌, List, [], ◌∷◌, ◌++◌, length, get_or,
  set, drop, leb, if◌then◌else◌,
}
use network_programming_c.MyShell.Pipes.{Word}
use network_programming_c.MyShell.Descriptors.{
  End, terminal, read_end, write_end, input_file, output_file, null_device, Table, at, lowest,
  alloc, close, dup2, writes_to,
}

abbrev pub Content : Type 0
Content = List ℕ

-- What is outside: what a command writes when it has read its input to the end, or when its input
-- is closed (`none`); what is typed; which files exist, what is read from them, and which can be
-- opened for writing; and how many bytes a pipe holds that nobody reads.
pub record Machine : Type 0 where
  pub runs : List Word → Option Content → Content
  pub typed : Content
  pub exists : Word → Bool
  pub contents : Word → Option Content
  pub can_write : Word → Bool
  pub capacity : ℕ

-- The descriptors of the shell, what was written to each pipe, the screen, and what was written to
-- which file: with true it is added at the end of the file.
pub record System : Type 0 where
  pub table : Table
  pub pipes : List Content
  pub screen : Content
  pub written : List (Word × Bool × Content)

-- A file that is opened for `>` is not cut: what is behind the bytes written stays in it.
unfoldable pub file_after : Content → Bool → Content → Content
file_after old append out = if append then old ++ out else out ++ drop (length out) old

-- What a child reads up to the end. A pipe that can still be written to has none: the outer `none`
-- is a child that does not end, for which the shell waits.
unfoldable pub input_at : Machine → System → Table → Option End → Option (Option Content)
input_at m s child none = some none
input_at m s child (some terminal) = some (some m.typed)
input_at m s child (some (read_end n)) =
    if writes_to s.table n || writes_to child n then none else some (some (get_or s.pipes n []))
input_at m s child (some (write_end n)) = some none
input_at m s child (some (input_file f)) = some (m.contents f)
input_at m s child (some (output_file f a)) = some none
input_at m s child (some null_device) = some (some [])

-- Where its output goes. A pipe that is full stops the child for ever: the command that would read
-- is forked only when it has ended.
unfoldable pub write_out : Machine → System → Option End → Content → Option System
write_out m s none out = some s
write_out m s (some terminal) out = some (record s { screen = s.screen ++ out })
write_out m s (some (read_end n)) out = some s
write_out m s (some (write_end n)) out =
    if leb (length out) m.capacity
    then some (record s { pipes = set s.pipes n (get_or s.pipes n [] ++ out) })
    else none
write_out m s (some (input_file f)) out = some s
write_out m s (some null_device) out = some s
write_out m s (some (output_file f a)) out =
    some (record s { written = s.written ++ (f, a, out) ∷ [] })

-- The child runs the command.
unfoldable pub run_child : Machine → System → Table → List Word → Option System
unfolding input_at write_out
run_child m s child cmd =
    input_at m s child (at child 0) >>= λ input. write_out m s (at child 1) (m.runs cmd input)

-- `redirection_out_pipe` and `file_fd_out`, which may be -1.
pub data Out : Type 0 where
  no_redirect : Out
  cannot_open : Out
  to_fd : ℕ → Out

-- What a child does to its output: `*(cmd + 1) != NULL`, or the redirection.
unfoldable pub child_output : Table → ℕ → Bool → Out → Table
child_output t p1 true out = dup2 t p1 1
child_output t p1 false no_redirect = t
child_output t p1 false cannot_open = t
child_output t p1 false (to_fd fd) = close (dup2 t fd 1) fd

unfoldable pub child_table : Table → ℕ → ℕ → ℕ → Bool → Out → Table
unfolding child_output
child_table t fd_in p0 p1 more out =
    close (child_output (close (dup2 t fd_in 0) fd_in) p1 more out) p0

abbrev pub is_more : List (List Word) → Bool
is_more [] = false
is_more (c ∷ cs) = true

-- `pipe(p)`: the shell with the descriptors of a new pipe.
unfoldable pub with_pipe : System → System
with_pipe s = record s {
  table = alloc (alloc s.table (read_end (length s.pipes))) (write_end (length s.pipes));
  pipes = s.pipes ++ [] ∷ [];
}

-- One command, and what the shell does when it has ended.
unfoldable pub pipe_step : Machine → System → ℕ → Out → List Word → Bool → Option System
unfolding child_table with_pipe run_child
pipe_step m s fd_in out cmd more =
    let p0 : ℕ = lowest s.table in
    let p1 : ℕ = lowest (alloc s.table (read_end (length s.pipes))) in
    run_child m (with_pipe s) (child_table (with_pipe s).table fd_in p0 p1 more out) cmd >>= λ s1.
    some (record s1 { table = close s1.table p1 })

-- The loop; the next command's input is the read end of this command's pipe.
unfoldable pub pipe_loop : Machine → System → ℕ → Out → List (List Word) → Option System
pipe_loop m s fd_in out [] = some s
pipe_loop m s fd_in out (cmd ∷ cmds) =
    pipe_step m s fd_in out cmd (is_more cmds) >>= λ s1. pipe_loop m s1 (lowest s.table) out cmds
