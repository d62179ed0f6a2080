-- ===== src/MyShell/Prompt.antt =====
-- MyShell/shell.c: the loop of `main` over the lines, with the globals that it keeps from a line to
-- the next. What is freed at the end of a line is not modelled; nor is `printStatus`, of a build
-- that defines DEBUG.
pub mod Plain
pub mod Invariant
pub mod Refusal
pub mod Piped
use network_programming_c.Prelude.{
  ℕ, ◌+◌, ◌*◌, Bool, true, false, ◌&&◌, ◌||◌, not, Option, none, some, ◌>>=◌, List, [], ◌∷◌, ◌++◌,
  length, take, get_or, get_elem?, ◌-◌, leb, if◌then◌else◌, str_eq, codes,
}
use network_programming_c.MyShell.Jobs.{Job, reap}
use network_programming_c.MyShell.Commands.{
  Kernel, Effect, exec_fg, exec_bg, job_wait, insert_background_job,
}
use network_programming_c.MyShell.Lines.{newline, cut_newline}
use network_programming_c.MyShell.Args.{init_args, get_argument_length, is_empty}
use network_programming_c.MyShell.Pipes.{
  Word, PipeType, no_pipe, count_pipes, Filter, no_commands, filter_from, output_redirection,
}
use network_programming_c.MyShell.Builtin.{
  Builtin, not_builtin, runs_here, needs_name, changes_directory, builtin,
}
use network_programming_c.MyShell.Redirect.{Redirection, no_redirection, redirection}

-- The globals. `parent_pid` is 0 before the first child.
pub record Shell : Type 0 where
  pub jobs : List Job
  pub parent_pid : ℕ
  pub is_background : Bool
  pub is_daemon : Bool
  pub ignore_path : Bool
  pub bad_redirect_pipe : Bool
  pub last_pipe : ℕ

-- What the system says while a line is handled: which background jobs have ended, the home
-- directory, the child that `fork` makes, the wait status of it in the foreground, and whether it
-- has ended at once in the background. `usable` is as in Args.
pub record World : Type 0 where
  pub kernel : Kernel
  pub done : ℕ → Bool
  pub home : List ℕ
  pub child : ℕ
  pub status : ℕ
  pub reaped : Bool
  pub usable : ℕ → ℕ

-- What a line leads to.
pub data Action : Type 0 where
  prompts : Action
  leaves : Action
  lists_jobs : Action
  does : Builtin → Action
  commands : List Effect → Action
  daemonizes : List Word → Action
  refuses : Action
  pipes : PipeType → List (List Word) → Bool → Bool → Action
  redirects : Redirection → Action
  launches : Bool → List Word → List Effect → Action

abbrev pub Handled : Type 0
Handled = Option (Shell × Action)

-- The child is forked, and waited for or put into the job list. The name of a job is the first
-- argument, which is read only where there is a job.
unfoldable pub launch : World → Shell → List Word → Handled
launch w s argv =
    let s1 : Shell = record s {
      parent_pid = w.kernel.self;
      is_background = false;
      ignore_path = false;
      last_pipe = 0;
    } in
    let argv0 : Word = get_or argv 0 [] in
    if s.is_background
    then (if is_empty argv
        then none
        else (insert_background_job s.jobs argv0 w.child w.reaped >>= λ (js, es).
            some (record s1 { jobs = js }, launches true argv es)))
    else (job_wait w.kernel s.jobs argv0 w.child w.status >>= λ (js, es).
        some (record s1 { jobs = js }, launches false argv es))

-- From `redirection_with_pipes_and_ipc` on.
unfoldable pub run_plain : World → Shell → List Word → Handled
unfolding launch
run_plain w s argv = redirection w.usable argv s.last_pipe >>= λ r. elim r [
  | no_redirection ↦ launch w s argv
  | other ↦ some (record s { last_pipe = 0 }, redirects other)
]

-- `pipeType` behind `count_pipes`: the kind of the last separator of the line. It is what
-- `executePipe` branches on, and `main` resets it for each line.
unfoldable pub pipe_type : List Word → PipeType
unfolding count_pipes
pipe_type argv = (count_pipes 0 no_pipe argv).1

-- From `pipe_filter` on.
unfoldable pub run_pipes : World → Shell → List Word → Handled
unfolding pipe_type
run_pipes w s argv =
    filter_from argv 0 argv
      (record no_commands { last_pipe = s.last_pipe; bad_redirect_pipe = s.bad_redirect_pipe })
    >>= λ f.
        if f.bad_redirect_pipe
        then some (record s { bad_redirect_pipe = true; last_pipe = 0 }, refuses)
        else (if is_empty f.commands
            then run_plain w (record s { last_pipe = f.last_pipe }) argv
            else (output_redirection argv f >>= λ (cs, out, freed).
                some (
                  record s { last_pipe = 0 },
                  pipes (pipe_type argv) cs f.redirection_in_pipe out,
                )))

-- The arguments without the last.
abbrev pub without_last : List Word → List Word
without_last argv = take (length argv - 1) argv

abbrev pub last_word : List Word → Word
last_word argv = get_or argv (length argv - 1) []

-- From the test of the last argument against `&` on.
unfoldable pub dispatch : World → Shell → List Word → Handled
dispatch w s argv =
    if str_eq (last_word argv) (codes "&")
    then run_pipes w (record s { is_background = true }) (without_last argv)
    else (if str_eq (get_or argv 0 []) (codes "fg")
        then (exec_fg w.kernel false s.jobs argv >>= λ (flag, js, es).
            some (record s { jobs = js; is_background = false }, commands es))
        else (if str_eq (get_or argv 0 []) (codes "bg")
            then (exec_bg w.kernel s.parent_pid s.jobs argv >>= λ (js, es).
                some (record s { jobs = js; is_background = false }, commands es))
            else (if s.is_daemon
                then some (record s { is_daemon = false }, daemonizes argv)
                else run_pipes w s argv)))

-- What is done with the answer of `builtin`.
unfoldable pub run_builtin : World → Shell → List Word → Builtin → Handled
run_builtin w s argv not_builtin = dispatch w s argv
run_builtin w s argv (runs_here argv') = dispatch w (record s { ignore_path = true }) argv'
run_builtin w s argv needs_name = some (s, does needs_name)
run_builtin w s argv (changes_directory dir) = some (s, does (changes_directory dir))

-- The splitting of the line, and `builtin`. The vector has one slot more than `argLength`, which is
-- that of the line with its newline, and the NULL behind the arguments goes to the slot whose index
-- is their number.
unfoldable pub run_args : World → Shell → ℕ → List ℕ → Handled
run_args w s arg_length buffer = init_args w.usable s.is_daemon buffer >>= λ t.
    if leb (length t.filled) arg_length
    then (builtin w.home t.filled >>= λ b.
        run_builtin w (record s { is_daemon = t.is_daemon }) t.filled b)
    else none

-- One round of the loop, for a line of the input. The flag `isSuspended` is never set.
unfoldable pub run_line : World → Shell → List ℕ → Handled
run_line w s line =
    if str_eq line (newline ∷ [])
    then some (s, prompts)
    else (reap w.done (length s.jobs * length s.jobs + length s.jobs + 1) false 0 s.jobs
        >>= λ (flag, js).
            let s1 : Shell = record s { jobs = js } in
            let buffer : List ℕ = cut_newline line in
            if str_eq buffer (codes "exit")
            then some (s1, leaves)
            else (if str_eq buffer (codes "printlist")
                then some (s1, lists_jobs)
                else run_args w s1 (get_argument_length line) buffer))
