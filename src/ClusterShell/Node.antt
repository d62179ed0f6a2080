-- ===== src/ClusterShell/Node.antt =====
-- ClusterShell/clustershell_client.c: the client of a node. Its `getArgumentLength`, `lineget`,
-- `setPATH`, `replaceSubstring` and `builtin`, the choice of a program in `execute_child`, and the
-- copying of a command in `pipe_filter` are those of the shell, and are taken from there. The two
-- threads share the buffer `msg`; here a line or a message is handled before the next comes into
-- it.
pub mod Args
pub mod Pipeline
pub mod Remote
use network_programming_c.Prelude.{
  ℕ, ◌+◌, ◌-◌, Bool, true, false, ◌&&◌, not, Option, none, some, ◌>>=◌, List, [], ◌∷◌, ◌++◌, length,
  get_or, take, ltb, leb, ◌==◌, if◌then◌else◌, str_eq, c_string, has_prefix, codes,
}
use network_programming_c.MyShell.Lines.{cut_newline}
use network_programming_c.MyShell.Args.{space, peek, is_empty, strings_fit, get_argument_length}
use network_programming_c.MyShell.Pipes.{Word, Filter, no_commands, cut_command, input_redirected}
use network_programming_c.MyShell.Builtin.{
  Builtin, not_builtin, runs_here, needs_name, changes_directory, builtin,
}

-- What `initArgs` has filled, and what the argument at `count` holds up to `j`.
abbrev pub Filled : Type 0
Filled = List Word × Word

unfoldable pub args_step : Filled → ℕ → ℕ → Filled
args_step (filled, current) c behind =
    if c == space && behind == space
    then (filled, current)
    else (if c == space then (filled ++ current ∷ [], []) else (filled, current ++ c ∷ []))

unfoldable pub args_from : Filled → List ℕ → List Word
unfolding args_step
args_from (filled, current) [] = filled ++ current ∷ []
args_from t (c ∷ s) = args_from (args_step t c (peek s)) s

unfoldable pub split_args : List ℕ → List Word
unfolding args_from
split_args buffer = args_from ([], []) buffer

-- The strings have one byte each, as those of the shell.
unfoldable pub init_args : (ℕ → ℕ) → List ℕ → Option (List Word)
unfolding split_args
init_args usable buffer = if strings_fit usable 0 buffer then some (split_args buffer) else none

-- The loop of `pipe_filter`, from the argument at `i`. A second input redirection ends it.
unfoldable pub pipe_from : List Word → ℕ → List Word → Filter → Option Filter
pipe_from args i [] f = some f
pipe_from args i (w ∷ rest) f =
    let f1 : Filter = record f { pipearg_count = f.pipearg_count + 1 } in
    let red : Bool = input_redirected args i in
    if not (str_eq w (codes "|"))
    then pipe_from args (i + 1) rest f1
    else (if red && f.redirection_in_pipe
        then some (record f1 { bad_redirect_pipe = true })
        else (cut_command args i
              (record f1 { redirection_in_pipe = if red then true else f.redirection_in_pipe })
            >>= λ f2. pipe_from args (i + 1) rest f2))

-- The globals that stay from a line to the next.
pub record Repl : Type 0 where
  pub is_background : Bool
  pub ignore_path : Bool
  pub bad_redirect_pipe : Bool
  pub last_pipe : ℕ

-- What a line leads to. The commands of a line with pipes are cut, and freed. A child is waited
-- for, in the background too.
pub data Ran : Type 0 where
  leaves : Ran
  does : Builtin → Ran
  refuses : Ran
  drops : List (List Word) → Ran
  launches : Bool → List Word → Ran

abbrev pub Result : Type 0
Result = Option (Repl × Ran)

-- From `fork` on, in the parent; the child takes the flag and the arguments.
unfoldable pub launch : Repl → List Word → Result
launch r argv = some (
  record r { is_background = false; ignore_path = false; last_pipe = 0 },
  launches r.ignore_path argv,
)

-- From `pipe_filter` on.
unfoldable pub run_pipeline : Repl → List Word → Result
unfolding launch
run_pipeline r argv =
    pipe_from argv 0 argv
      (record no_commands { last_pipe = r.last_pipe; bad_redirect_pipe = r.bad_redirect_pipe })
    >>= λ f.
        if f.bad_redirect_pipe
        then some (record r { bad_redirect_pipe = true; last_pipe = 0 }, refuses)
        else (if is_empty f.commands
            then launch (record r { last_pipe = f.last_pipe }) argv
            else some (record r { last_pipe = 0 }, drops f.commands))

-- From the test of the last argument against `&` on.
unfoldable pub run_vector : Repl → List Word → Result
run_vector r argv =
    if str_eq (get_or argv (length argv - 1) []) (codes "&")
    then run_pipeline (record r { is_background = true }) (take (length argv - 1) argv)
    else run_pipeline r argv

-- What is done with the answer of `builtin`.
unfoldable pub run_builtin : Repl → List Word → Builtin → Result
run_builtin r argv not_builtin = run_vector r argv
run_builtin r argv (runs_here argv') = run_vector (record r { ignore_path = true }) argv'
run_builtin r argv needs_name = some (r, does needs_name)
run_builtin r argv (changes_directory dir) = some (r, does (changes_directory dir))

-- `REPL`. The vector has one slot more than `argLength`, and the NULL goes behind the arguments.
unfoldable pub repl : (ℕ → ℕ) → List ℕ → Repl → List ℕ → Result
repl usable home r line =
    let buffer : List ℕ = cut_newline line in
    if str_eq buffer (codes "exit")
    then some (r, leaves)
    else (init_args usable buffer >>= λ argv.
        if leb (length argv) (get_argument_length line)
        then (builtin home argv >>= λ b. run_builtin r argv b)
        else none)

-- What a line of the user leads to: the end, or a message to the server, with what `REPL` does
-- where it is called.
pub data Console : Type 0 where
  ends : Console
  sends : List ℕ → Console
  sends_and_runs : List ℕ → Ran → Console

abbrev pub colon : ℕ
colon = b':'

abbrev pub send_size : ℕ
send_size = 500

-- The line goes to a single node: it has the form `n`, a byte, a dot.
unfoldable pub for_node : List ℕ → Bool
for_node line = not (get_or line 1 0 == 0) && (get_or line 0 0 == b'n' && get_or line 2 0 == b'.')

-- The loop of `main` on a line. `none` is a write behind `send_msg`.
unfoldable pub console : (ℕ → ℕ) → List ℕ → List ℕ → Repl → List ℕ → Option (Repl × Console)
unfolding for_node
console usable client_name home r line =
    let send_msg : List ℕ = client_name ++ colon ∷ line in
    if has_prefix (codes "exit") line
    then some (r, ends)
    else (if ltb (length send_msg) send_size
        then (if for_node line
            then some (r, sends send_msg)
            else (if has_prefix (codes "nodes") line
                then some (r, sends send_msg)
                else (repl usable home r line >>= λ (r', ran).
                    some (r', sends_and_runs send_msg ran))))
        else none)

-- `recvmg` on what it has received.
unfoldable pub hears : (ℕ → ℕ) → List ℕ → Repl → List ℕ → Result
hears usable home r bytes = repl usable home r (c_string bytes)
