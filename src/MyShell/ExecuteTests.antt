-- ===== src/MyShell/ExecuteTests.antt =====
-- MyShell/shell.c: `executePipe`, `shellMsgQ`, `shellShm` and `daemonizeProcess` at work.
use network_programming_c.Prelude.{
  ℕ, ◌*◌, ◌≡◌, refl, true, false, Option, none, some, List, [], ◌∷◌, ◌++◌, length, codes, arith,
  replicate, str_eq, length-replicate,
}
use network_programming_c.MyShell.Pipes.{Word}
use network_programming_c.MyShell.Descriptors.{
  terminal, input_file, null_device, Table, at, count_open,
}
use network_programming_c.MyShell.Execute.{Content, Machine, System, file_after}
use network_programming_c.MyShell.Execute.Redirected.{ends, execute_pipe, find_operator}
use network_programming_c.MyShell.Execute.Screen.{Idle, execute_pipe-pipeline, execute_pipe-to_file}
use network_programming_c.MyShell.Execute.Input.{execute_pipe-from_file}
use network_programming_c.MyShell.Daemon.{daemon_table}
use network_programming_c.MyShell.Daemon.Closed.{daemon_table-null_device}
use network_programming_c.MyShell.Shared.{piece_size, starts, shell_msg_q}
use network_programming_c.MyShell.Shared.Pieces.{shell_msg_q-last_piece}

-- A program that writes three bytes without input, and else its input behind a byte.
abbrev runs : List Word → Option Content → Content
runs cmd none = 7 ∷ 8 ∷ 9 ∷ []
runs cmd (some c) = length cmd ∷ c

abbrev machine : ℕ → Machine
machine n = record {
  runs = runs;
  typed = [];
  exists = λ w. true;
  contents = λ w. some (5 ∷ []);
  can_write = λ w. true;
  capacity = n;
}

abbrev at_prompt : System
at_prompt = record {
  table = some terminal ∷ some terminal ∷ some terminal ∷ [];
  pipes = [];
  screen = 1 ∷ [];
  written = [];
}

at_prompt-Idle : Idle at_prompt
at_prompt-Idle = record {
  stdin = terminal;
  stdin_open = refl;
  stdout = terminal;
  stdout_open = refl;
  no_writers = λ k. refl;
}

abbrev ls : List Word
ls = codes "ls" ∷ []

abbrev wc : List Word
wc = codes "wc" ∷ codes "-l" ∷ []

execute_pipe-pipeline_example :
    (s1 : System) × (execute_pipe (machine 4) false false (ls ∷ wc ∷ ls ∷ []) at_prompt ≡ ends s1)
    × (s1.screen ≡ 1 ∷ 1 ∷ 2 ∷ 7 ∷ 8 ∷ 9 ∷ [])
    × (s1.written ≡ [])
    × (count_open s1.table ≡ 8)
execute_pipe-pipeline_example =
    execute_pipe-pipeline (machine 4) at_prompt ls (wc ∷ ls ∷ []) at_prompt-Idle refl refl

execute_pipe-to_file_example :
    (s1 : System) × (execute_pipe
        (machine 4)
        false
        true
        (ls ∷ (codes "wc" ∷ codes ">>" ∷ codes "f" ∷ []) ∷ [])
        at_prompt
      ≡ ends s1)
    × (s1.written ≡ (codes "f", true, 1 ∷ 7 ∷ 8 ∷ 9 ∷ []) ∷ [])
    × (s1.screen ≡ 1 ∷ [])
    × (at s1.table 1 ≡ some terminal)
unfolding find_operator str_eq
execute_pipe-to_file_example =
    execute_pipe-to_file (machine 4) at_prompt
      (ls ∷ (codes "wc" ∷ codes ">>" ∷ codes "f" ∷ []) ∷ []) (codes "wc" ∷ []) (codes ">>")
      (codes "f") at_prompt-Idle refl refl refl refl

execute_pipe-from_file_example :
    (s1 : System) × (execute_pipe
        (machine 4)
        true
        false
        ((codes "ls" ∷ codes "<" ∷ codes "f" ∷ []) ∷ wc ∷ [])
        at_prompt
      ≡ ends s1)
    × (s1.screen ≡ 1 ∷ 2 ∷ 7 ∷ 8 ∷ 9 ∷ [])
    × (at s1.table 0 ≡ some terminal)
unfolding find_operator str_eq
execute_pipe-from_file_example =
    execute_pipe-from_file (machine 4) at_prompt (codes "ls" ∷ codes "<" ∷ codes "f" ∷ []) ls
      (wc ∷ []) (codes "<") (codes "f") at_prompt-Idle refl refl refl refl

-- What stands in the file behind a line with `>` is the new output and the end of the old one.
file_after_longer : file_after (1 ∷ 2 ∷ 3 ∷ []) false (7 ∷ []) ≡ 7 ∷ 2 ∷ 3 ∷ []
unfolding file_after
file_after_longer = refl

shell_msg_q-last_piece_example :
    shell_msg_q 8192 (replicate 8191 1 ++ 7 ∷ []) (ls ∷ wc ∷ [])
    ≡ starts ((ls, 7 ∷ []) ∷ (wc, 7 ∷ []) ∷ [])
shell_msg_q-last_piece_example =
    let pre : Content = replicate 8191 1 in
    let e : length pre ≡ 1 * piece_size = length-replicate {A = ℕ} 8191 1 in
    shell_msg_q-last_piece 8192 1 pre (7 ∷ []) (ls ∷ wc ∷ []) e (omega arith) (omega arith)
      (λ e. omega (arith, e), tt) (omega arith)

-- The shell has a file open besides its terminal.
daemon_table-null_device_example :
    (t1 : Table) × (daemon_table 4
        (some terminal ∷ some terminal ∷ some terminal ∷ some (input_file (codes "f")) ∷ [])
      ≡ some t1)
    × (at t1 0 ≡ some null_device)
    × (at t1 1 ≡ some null_device)
    × (at t1 2 ≡ some null_device)
    × (count_open t1 ≡ 3)
daemon_table-null_device_example =
    daemon_table-null_device 4
      (some terminal ∷ some terminal ∷ some terminal ∷ some (input_file (codes "f")) ∷ [])
      (omega arith)
