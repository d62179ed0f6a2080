-- ===== src/MyShell/PromptTests.antt =====
-- MyShell/shell.c: rounds of the prompt, on concrete inputs.
use network_programming_c.Prelude.{
  ℕ, ◌≡◌, ◌≢◌, ◌==◌, refl, true, false, none, some, List, [], ◌∷◌, ◌++◌, arith, codes, str_eq,
}
use network_programming_c.MyShell.Jobs.{Job, background, foreground, reap, remove_job}
use network_programming_c.MyShell.Jobs.Laws.{IsJobSet}
use network_programming_c.MyShell.Jobs.Reap.{unfinished}
use network_programming_c.MyShell.Commands.{Kernel, waits, job_wait}
use network_programming_c.MyShell.Lines.{newline, cut_newline}
use network_programming_c.MyShell.Args.{split_args, init_args, get_argument_length}
use network_programming_c.MyShell.Args.Words.{line, words}
use network_programming_c.MyShell.Pipes.{Word, pipe, is_separator, filter_from, output_redirected}
use network_programming_c.MyShell.Builtin.{builtin}
use network_programming_c.MyShell.Redirect.{redirection, is_operator}
use network_programming_c.MyShell.Prompt.{
  Shell, World, pipes, refuses, launch, launches, run_line, run_args, run_builtin, dispatch,
  run_pipes, run_plain,
}
use network_programming_c.MyShell.Prompt.Refusal.{
  StartsNothing, here, for_daemon, run_line-IsRefused,
}
use network_programming_c.MyShell.Prompt.Invariant.{run_line-IsJobSet}
use network_programming_c.MyShell.Prompt.Plain.{IsProgram, IsCommand, run_line-launch}
use network_programming_c.MyShell.Prompt.Piped.{IsPiped, run_line-pipeline}
use network_programming_c.MyShell.Descriptors.{terminal}
use network_programming_c.MyShell.Execute.{Machine, System}
use network_programming_c.MyShell.Execute.Redirected.{ends, execute_pipe}
use network_programming_c.MyShell.Execute.Screen.{Idle}

abbrev kernel : Kernel
kernel = record {
  parent = 1;
  self = 10;
  group_of = λ p. p;
  signal_group = λ p. true;
  signal_one = λ p. true;
}

abbrev world : World
world = record {
  kernel = kernel;
  done = λ p. p == 11;
  home = codes "/home/u";
  child = 12;
  status = 0;
  reaped = false;
  usable = λ n. 24;
}

abbrev jobs : List Job
jobs =
    record { pid = 10; name = codes "myshell"; status = foreground; gid = 10 }
    ∷ record { pid = 11; name = codes "make"; status = background; gid = 11 }
    ∷ []

abbrev shell : Shell
shell = record {
  jobs = jobs;
  parent_pid = 0;
  is_background = false;
  is_daemon = false;
  ignore_path = false;
  bad_redirect_pipe = false;
  last_pipe = 0;
}

abbrev shell_left : List Job
shell_left = record { pid = 10; name = codes "myshell"; status = foreground; gid = 10 } ∷ []

jobs-IsJobSet : IsJobSet 10 jobs
jobs-IsJobSet = record {
  head = record { pid = 10; name = codes "myshell"; status = foreground; gid = 10 };
  rest = record { pid = 11; name = codes "make"; status = background; gid = 11 } ∷ [];
  list = refl;
  own = refl;
  front = refl;
  distinct = ground arith;
  positive = ground arith;
}

-- A line with two input redirections.
abbrev two_inputs : List ℕ
two_inputs = codes "cat < a | cat < b | wc" ++ newline ∷ []

refused :
    run_line world shell two_inputs
    ≡ some (record shell { jobs = shell_left; bad_redirect_pipe = true }, refuses)
unfolding run_line run_args run_builtin dispatch run_pipes filter_from reap remove_job init_args
    get_argument_length builtin str_eq is_separator cut_newline
refused = refl

-- The line `ls` behind it.
refused_again :
    run_line world
      (record shell { jobs = shell_left; bad_redirect_pipe = true })
      (codes "ls" ++ newline ∷ [])
    ≡ some (record shell { jobs = shell_left; bad_redirect_pipe = true }, refuses)
unfolding run_line run_args run_builtin dispatch run_pipes filter_from reap remove_job init_args
    get_argument_length builtin str_eq is_separator cut_newline
refused_again = refl

no_daemon : for_daemon shell (codes "ls" ++ newline ∷ []) ≡ false
unfolding split_args cut_newline
no_daemon = refl

run_line-IsRefused_example : (true ≡ true) × StartsNothing refuses
run_line-IsRefused_example =
    run_line-IsRefused world world shell
      (record shell { jobs = shell_left; bad_redirect_pipe = true })
      (record shell { jobs = shell_left; bad_redirect_pipe = true })
      (record shell { jobs = shell_left; bad_redirect_pipe = true }) two_inputs
      (codes "ls" ++ newline ∷ []) refuses refused here no_daemon refused_again

-- At the end of the input a line is empty, and a child is made for it.
ended :
    run_line world shell []
    ≡ some (
      record shell { jobs = shell_left; parent_pid = 10 },
      launches false ([] ∷ []) (waits 12 ∷ []),
    )
unfolding run_line run_args run_builtin dispatch run_pipes run_plain launch redirection filter_from
    reap remove_job init_args get_argument_length builtin str_eq is_separator is_operator
    cut_newline job_wait
ended = refl

run_line-IsJobSet_example : IsJobSet 10 shell_left
run_line-IsJobSet_example =
    run_line-IsJobSet world 10 refl shell (record shell { jobs = shell_left; parent_pid = 10 }) []
      (launches false ([] ∷ []) (waits 12 ∷ [])) jobs-IsJobSet (ground arith) ended

abbrev arguments : List (ℕ × List ℕ)
arguments = (1, codes "-l") ∷ []

not_empty : {A : Type 0} (x : A) (xs : List A) → x ∷ xs ≢ []
not_empty x xs e = cc

ls-IsProgram : IsProgram shell (codes "ls") arguments
unfolding str_eq
ls-IsProgram = record {
  first_word = (ground arith, not_empty b'l' (codes "s"));
  other_words = ((ground arith, not_empty b'-' (codes "l")), tt);
  bytes = ground arith;
  no_exit = refl;
  no_printlist = refl;
  no_daemon = (refl, refl);
  pipes = (refl, refl);
}

ls-IsCommand : IsCommand world shell (codes "ls" ∷ words arguments)
unfolding builtin str_eq is_separator is_operator
ls-IsCommand = record {
  own = refl;
  first = (refl, refl);
  last = refl;
  plain = ((refl, refl), ((refl, refl), tt));
  no_operator = (refl, (refl, tt));
}

run_line-launch_example :
    run_line world shell (line (codes "ls") arguments ++ newline ∷ [])
    ≡ some (
      record {
        jobs = unfinished world.done shell.jobs;
        parent_pid = 10;
        is_background = false;
        is_daemon = false;
        ignore_path = false;
        bad_redirect_pipe = false;
        last_pipe = 0;
      },
      launches false (codes "ls" ∷ codes "-l" ∷ []) (waits 12 ∷ []),
    )
run_line-launch_example =
    run_line-launch world 10 shell (codes "ls") arguments jobs-IsJobSet (ground arith) refl refl
      ls-IsProgram refl ls-IsCommand

abbrev piped : List (ℕ × List ℕ)
piped = (1, codes "|") ∷ (1, codes "wc") ∷ []

ls_wc-IsProgram : IsProgram shell (codes "ls") piped
unfolding str_eq
ls_wc-IsProgram = record {
  first_word = (ground arith, not_empty b'l' (codes "s"));
  other_words =
      ((ground arith, not_empty b'|' []), ((ground arith, not_empty b'w' (codes "c")), tt));
  bytes = ground arith;
  no_exit = refl;
  no_printlist = refl;
  no_daemon = (refl, refl);
  pipes = (refl, refl);
}

ls_wc-IsPiped : IsPiped world (codes "ls" ∷ words piped) (codes "ls" ∷ []) (codes "wc" ∷ []) []
unfolding builtin str_eq is_separator output_redirected
ls_wc-IsPiped = record {
  parted = refl;
  own = refl;
  first = (refl, refl);
  last = refl;
  front = (not_empty (codes "ls") [], (((refl, refl), tt), omega arith));
  other_commands = ((refl, (((refl, refl), tt), omega arith)), tt);
  bars = tt;
  few = omega arith;
  no_output = refl;
}

-- A program that writes three bytes without input, and else one byte before its input.
abbrev machine : Machine
machine = record {
  runs = λ cmd input. elim input [ none ↦ 7 ∷ 8 ∷ 9 ∷ [] | some c ↦ 5 ∷ c ];
  typed = [];
  exists = λ w. true;
  contents = λ w. none;
  can_write = λ w. true;
  capacity = 4;
}

abbrev terminals : System
terminals = record {
  table = some terminal ∷ some terminal ∷ some terminal ∷ [];
  pipes = [];
  screen = [];
  written = [];
}

terminals-Idle : Idle terminals
terminals-Idle = record {
  stdin = terminal;
  stdin_open = refl;
  stdout = terminal;
  stdout_open = refl;
  no_writers = λ k. refl;
}

run_line-pipeline_example :
    (cs : List (List Word)) × (s1 : Shell) × (y1 : System) × (run_line world shell
        (line (codes "ls") piped ++ newline ∷ [])
      ≡ some (s1, pipes pipe cs false false))
    × (execute_pipe machine false false cs terminals ≡ ends y1)
    × (y1.screen ≡ 5 ∷ 7 ∷ 8 ∷ 9 ∷ [])
run_line-pipeline_example =
    run_line-pipeline world 10 shell (codes "ls") piped (codes "ls" ∷ []) (codes "wc" ∷ []) []
      machine terminals jobs-IsJobSet ls_wc-IsProgram refl ls_wc-IsPiped terminals-Idle refl refl
