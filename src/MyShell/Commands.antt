-- ===== src/MyShell/Commands.antt =====
-- MyShell/shell.c: `fg`, `bg`, the kill command, and what the shell does with a child that it
-- forked. A function gives the job list afterwards and what it did; `none` is a fault, a read
-- through NULL or a job list that was freed.
pub mod Names
pub mod Invariant
pub mod Suspension
pub mod Runs
use network_programming_c.Prelude.{
  ℕ, zero, suc, ◌+◌, ◌-◌, ◌*◌, ◌/◌, ◌%◌, Bool, true, false, ◌&&◌, ◌||◌, not, Option, none, some,
  List, [], ◌∷◌, ◌++◌, ltb, leb, ◌==◌, if◌then◌else◌, ◌>>=◌, get_elem?, get_or, drop, length,
}
use network_programming_c.MyShell.Jobs.{
  Status, suspended, background, foreground, Job, is_foreground, is_suspended, negative, insert,
  remove_job, find_pid, change_status, get_pid_from_name,
}

pub data Message : Type 0 where
  no_such_job not_suspended no_jobs no_suspended_jobs cannot_kill : Message
  no_such_name : List ℕ → Message
  continued finished_job suspended_job : ℕ → Message

-- The system calls with an effect, and what is printed.
pub data Effect : Type 0 where
  signals : ℕ → ℕ → Effect
  signals_group : ℕ → ℕ → Effect
  gives_terminal waits : ℕ → Effect
  prints : Message → Effect

-- The kernel's part: the group of a process, whether `kill` succeeds on the group and on the
-- process alone, and the pids of the shell and of its parent.
pub record Kernel : Type 0 where
  pub group_of : ℕ → ℕ
  pub signal_group : ℕ → Bool
  pub signal_one : ℕ → Bool
  pub self : ℕ
  pub parent : ℕ

abbrev pub sigtstp : ℕ
sigtstp = 20

abbrev pub sigcont : ℕ
sigcont = 18

abbrev pub Done : Type 0
Done = Option (Bool × List Job × List Effect)

-- `removeJob(jobSet, pid);`, whose result is not used: if the head is freed, `jobSet` dangles.
unfoldable pub remove_in_place : Bool → List Job → ℕ → Option (Bool × List Job)
remove_in_place true js pid = remove_job true js pid
remove_in_place false [] pid = none
remove_in_place false (j ∷ js) pid =
    if negative pid || j.pid == pid then none else remove_job false (j ∷ js) pid

-- `kill(-pid, SIGCONT) < 0` and then `kill(pid, SIGCONT) < 0`.
abbrev pub continue_effects : Kernel → ℕ → List Effect
continue_effects k pid =
    signals_group pid sigcont ∷ (if k.signal_group pid then [] else signals pid sigcont ∷ [])

abbrev pub can_continue : Kernel → ℕ → Bool
can_continue k pid = k.signal_group pid || k.signal_one pid

fg_found : Kernel → Bool → List Job → ℕ → Done
fg_found k flag js pid =
    if can_continue k pid
    then (remove_in_place flag js pid >>= λ (flag', js'). some (
      flag',
      js',
      gives_terminal pid ∷ continue_effects k pid
          ++ (prints (continued pid) ∷ waits pid ∷ gives_terminal k.self ∷ []),
    ))
    else some (flag, js, gives_terminal pid ∷ continue_effects k pid ++ (prints no_such_job ∷ []))

-- The first signal goes out before the job is looked at.
unfoldable pub shell_fg_command : Kernel → Bool → List Job → ℕ → Done
unfolding fg_found
shell_fg_command k flag js pid =
    elim (find_pid js pid) [
      | none ↦ some (flag, js, prints no_such_job ∷ [])
      | some j ↦
          if not (is_foreground j.status)
          then fg_found k flag js pid
          else some (flag, js, prints no_such_job ∷ [])
    ]
    >>= λ (flag', js', es). some (flag', js', signals (k.group_of pid) sigtstp ∷ es)

-- `parent_pid` is the global `parentPID`.
unfoldable pub shell_bg_command : Kernel → ℕ → List Job → ℕ → List Job × List Effect
shell_bg_command k parent_pid js pid = elim (find_pid js pid) [
  | none ↦ (js, prints no_such_job ∷ [])
  | some j ↦
      if not (j.pid == parent_pid)
      then (if not (is_suspended j.status)
          then (js, prints not_suspended ∷ [])
          else (if can_continue k pid
              then (
                change_status js pid background,
                continue_effects k pid ++ (prints (continued pid) ∷ gives_terminal k.self ∷ []),
              )
              else (js, continue_effects k pid ++ (prints no_such_job ∷ []))))
      else (js, prints no_such_job ∷ [])
]

unfoldable pub shell_kill_command : Kernel → List Job → ℕ → ℕ → List Effect
shell_kill_command k js pid signo =
    if pid == k.self || pid == k.parent
    then prints cannot_kill ∷ []
    else elim (find_pid js pid) [ none ↦ [] | some j ↦ signals pid signo ∷ [] ]

-- The macro `WSTOPSIG`.
abbrev pub stop_signal : ℕ → ℕ
stop_signal status = status / 256 % 256

-- The parent's wait for a foreground child; `status` is what `waitpid` stores, `argv0` the
-- command. The name is copied to a string that is asked for with one byte, as the string of the
-- argument was: it has room where the argument had.
unfoldable pub job_wait : Kernel → List Job → List ℕ → ℕ → ℕ → Option (List Job × List Effect)
job_wait k js argv0 pid status =
    if stop_signal status == 0
    then some (js, waits pid ∷ [])
    else insert js (record { pid = pid; name = argv0; status = suspended; gid = k.group_of k.self })
      >>= λ js'. some (js', waits pid ∷ prints (suspended_job pid) ∷ gives_terminal k.self ∷ [])

-- `reaped` says whether `waitpid` with WNOHANG returns more than 0.
unfoldable pub insert_background_job :
    List Job → List ℕ → ℕ → Bool → Option (List Job × List Effect)
insert_background_job js argv0 pid reaped =
    insert js (record { pid = pid; name = argv0; status = background; gid = pid }) >>= λ js'.
    some (js', if reaped then prints (finished_job pid) ∷ [] else [])

-- `atoi` of the C library: white space, a sign, and digits, as an `int`.
digits : ℕ → List ℕ → ℕ
digits acc [] = acc
digits acc (c ∷ s) =
    let rest = digits (acc * 10 + (c - b'0')) s in if leb b'0' c && leb c b'9' then rest else acc

is_space : ℕ → Bool
is_space c = c == b' ' || leb 9 c && leb c 13

unfoldable pub atoi : List ℕ → ℕ
unfolding digits is_space
atoi [] = 0
atoi (c ∷ s) =
    let rest = atoi s in
    if is_space c
    then rest
    else (if c == b'-'
        then (0x100000000 - digits 0 s % 0x100000000) % 0x100000000
        else (if c == b'+' then digits 0 s else digits 0 (c ∷ s)) % 0x100000000)

-- The byte at an index of a C string; a read behind the terminating zero is a fault.
unfoldable pub char_at : List ℕ → ℕ → Option ℕ
char_at s i = if leb i (length s) then some (get_or s i 0) else none

-- The search by name, for the arguments with a `%` at the front.
unfoldable pub fg_by_name : Kernel → Bool → List Job → List ℕ → Done
fg_by_name k flag js name =
    if get_pid_from_name js name == 0
    then some (flag, js, prints (no_such_name name) ∷ [])
    else shell_fg_command k flag js (get_pid_from_name js name)

-- `argv` is the argument vector up to its NULL.
unfoldable pub exec_fg : Kernel → Bool → List Job → List (List ℕ) → Done
unfolding char_at fg_by_name
exec_fg k flag [] argv = some (flag, [], prints no_jobs ∷ [])
exec_fg k flag (j ∷ js) argv = do
  a ← get_elem? argv 1
  c ← char_at a 0
  if c == b'%'
      then (char_at a 1 >>= λ d.
          if d == 0
          then shell_fg_command k flag (j ∷ js) (atoi a)
          else fg_by_name k flag (j ∷ js) (drop 1 a))
      else shell_fg_command k flag (j ∷ js) (atoi a)

unfoldable pub bg_by_name : Kernel → ℕ → List Job → List ℕ → List Job × List Effect
bg_by_name k parent_pid js name =
    if get_pid_from_name js name == 0
    then (js, prints (no_such_name name) ∷ [])
    else shell_bg_command k parent_pid js (get_pid_from_name js name)

-- As `exec_fg`, but for the index 2 in the test of the argument.
unfoldable pub exec_bg : Kernel → ℕ → List Job → List (List ℕ) → Option (List Job × List Effect)
unfolding char_at bg_by_name
exec_bg k parent_pid [] argv = some ([], prints no_suspended_jobs ∷ [])
exec_bg k parent_pid (j ∷ js) argv = do
  a ← get_elem? argv 1
  c ← char_at a 0
  if c == b'%'
      then (char_at a 2 >>= λ d. some (
          if d == 0
          then shell_bg_command k parent_pid (j ∷ js) (atoi a)
          else bg_by_name k parent_pid (j ∷ js) (drop 1 a)))
      else some (shell_bg_command k parent_pid (j ∷ js) (atoi a))
