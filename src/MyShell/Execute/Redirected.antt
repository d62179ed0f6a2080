-- ===== src/MyShell/Execute/Redirected.antt =====
-- MyShell/shell.c: `executePipe`: the redirections of the first and the last command, and the
-- descriptors that are saved before the loop.
use network_programming_c.Prelude.{
  ℕ, Bool, true, false, Option, none, some, ◌>>=◌, List, [], ◌∷◌, if◌then◌else◌, str_eq, codes,
}
use network_programming_c.MyShell.Pipes.{Word}
use network_programming_c.MyShell.Redirect.{is_output, first}
use network_programming_c.MyShell.Descriptors.{
  End, input_file, output_file, Table, at, lowest, alloc, close, dup2, dup,
}
use network_programming_c.MyShell.Execute.{
  Content, Machine, System, Out, no_redirect, cannot_open, to_fd, pipe_loop,
}

-- What becomes of the line. Without a file the shell goes back to its prompt.
pub data Ending : Type 0 where
  hangs : Ending
  refuses : Option Word → System → Ending
  ends : System → Ending

-- The words before the first operator, the operator, and the word behind it.
unfoldable pub find_operator : (Word → Bool) → List Word → Option (List Word × Word × Option Word)
find_operator is [] = none
find_operator is (w ∷ ws) =
    let more = find_operator is ws in
    if is w
    then some ([], w, first ws)
    else (more >>= λ (before, op, name). some (w ∷ before, op, name))

abbrev pub with_first : List Word → List (List Word) → List (List Word)
with_first c [] = []
with_first c (d ∷ ds) = c ∷ ds

abbrev pub first_command : List (List Word) → List Word
first_command [] = []
first_command (c ∷ cs) = c

abbrev pub last_command : List (List Word) → List Word
last_command [] = []
last_command (c ∷ []) = c
last_command (c ∷ d ∷ ds) = last_command (d ∷ ds)

abbrev pub with_last : List Word → List (List Word) → List (List Word)
with_last c [] = []
with_last c (d ∷ []) = c ∷ []
with_last c (d ∷ e ∷ ds) = d ∷ with_last c (e ∷ ds)

-- `open`, `dup2` and `close` of a file that exists; it cannot be opened where there is no content.
unfoldable pub redirect_input : Word → Option Content → Table → Table
redirect_input f none t = t
redirect_input f (some c) t = close (dup2 (alloc t (input_file f)) (lowest t) 0) (lowest t)

-- What `dup` returns: -1 for a descriptor that is closed.
unfoldable pub saved : Table → Option End → Option ℕ
saved t none = none
saved t (some e) = some (lowest t)

unfoldable pub restore : Bool → Option ℕ → ℕ → System → System
restore false save i s = s
restore true none i s = s
restore true (some fd) i s = record s { table = close (dup2 s.table fd i) fd }

-- `redirection_in_pipe`, `redirection_out_pipe`, and the descriptors that are saved.
pub record Saved : Type 0 where
  pub red_in : Bool
  pub red_out : Bool
  pub save_in : Option ℕ
  pub save_out : Option ℕ

unfoldable pub after_loop : Saved → Option System → Ending
unfolding restore
after_loop v none = hangs
after_loop v (some s) = ends (restore v.red_out v.save_out 1 (restore v.red_in v.save_in 0 s))

-- The loop, and the saved descriptors behind it.
unfoldable pub run_pipe : Machine → Saved → Out → List (List Word) → System → Ending
unfolding after_loop
run_pipe m v out cmds s = after_loop v (pipe_loop m s 0 out cmds)

-- What is done with the answer of the search of `>` and `>>` in the last command.
unfoldable pub redirect_output :
    Machine → Saved → List (List Word) → System → Option (List Word × Word × Option Word) → Ending
unfolding run_pipe
redirect_output m v cmds s none = run_pipe m v cannot_open cmds s
redirect_output m v cmds s (some (before, op, none)) = refuses none s
redirect_output m v cmds s (some (before, op, some f)) =
    let append : Bool = if str_eq op (codes ">") then false else true in
    if m.can_write f
    then run_pipe m v (to_fd (lowest s.table)) (with_last before cmds)
        (record s { table = alloc s.table (output_file f append) })
    else run_pipe m v cannot_open (with_last before cmds) s

unfoldable pub redirect_last : Machine → Saved → List (List Word) → System → Ending
unfolding find_operator redirect_output
redirect_last m v cmds s =
    if v.red_out
    then redirect_output m v cmds s (find_operator is_output (last_command cmds))
    else run_pipe m v no_redirect cmds s

-- What is done with the answer of the search of `<` in the first command.
unfoldable pub redirect_first :
    Machine → Saved → List (List Word) → System → Option (List Word × Word × Option Word) → Ending
unfolding redirect_input redirect_last
redirect_first m v cmds s none = redirect_last m v cmds s
redirect_first m v cmds s (some (before, op, none)) = refuses none s
redirect_first m v cmds s (some (before, op, some f)) =
    if m.exists f
    then redirect_last m v (with_first before cmds)
        (record s { table = redirect_input f (m.contents f) s.table })
    else refuses (some f) s

abbrev pub is_input : Word → Bool
is_input w = str_eq w (codes "<")

unfoldable pub execute_pipe : Machine → Bool → Bool → List (List Word) → System → Ending
unfolding find_operator saved redirect_first
execute_pipe m red_in red_out cmds s =
    let v : Saved = record {
      red_in = red_in;
      red_out = red_out;
      save_in = saved s.table (at s.table 0);
      save_out = saved (dup s.table 0) (at (dup s.table 0) 1);
    } in
    let s1 : System = record s { table = dup (dup s.table 0) 1 } in
    if red_in
    then redirect_first m v cmds s1 (find_operator is_input (first_command cmds))
    else redirect_last m v cmds s1
