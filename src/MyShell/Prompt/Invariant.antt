-- ===== src/MyShell/Prompt/Invariant.antt =====
-- MyShell/shell.c: the job list from a line to the next.
use network_programming_c.Prelude.{
  ℕ, ◌≡◌, ◌≢◌, refl, true, false, some, List, [], ◌∷◌, length, get_or, leb, if◌then◌else◌, str_eq,
  codes, Ensures, bind-Ensures, if-Ensures, Ensures-some,
}
use network_programming_c.MyShell.Jobs.{Job, negative}
use network_programming_c.MyShell.Jobs.Laws.{Absent, IsJobSet}
use network_programming_c.MyShell.Jobs.Reap.{
  unfinished, reap_lem, unfinished-IsJobSet, All-unfinished,
}
use network_programming_c.MyShell.Lines.{newline, cut_newline}
use network_programming_c.MyShell.Args.{init_args, get_argument_length, is_empty}
use network_programming_c.MyShell.Commands.{exec_fg, exec_bg, insert_background_job, job_wait}
use network_programming_c.MyShell.Commands.Runs.{waited, started}
use network_programming_c.MyShell.Pipes.{Word, Filter, no_commands, filter_from, output_redirection}
use network_programming_c.MyShell.Builtin.{
  Builtin, not_builtin, runs_here, needs_name, changes_directory, builtin,
}
use network_programming_c.MyShell.Redirect.{
  Redirection, no_redirection, before_pipe, to_file, to_queues, to_memory, redirection,
}
use network_programming_c.MyShell.Prompt.{
  Shell, World, Action, launch, run_plain, run_pipes, without_last, last_word, dispatch,
  run_builtin, run_args, run_line,
}
use network_programming_c.MyShell.Commands.Names.{
  FgKeeps, BgKeeps, exec_fg-FgKeeps, exec_bg-BgKeeps,
}

abbrev pub Keeps : ℕ → Shell × Action → Type 0
Keeps shell (s, a) = IsJobSet shell s.jobs

-- What the shell is given for a line: the pid of a new child is not negative.
module _ (w : World) (shell : ℕ) (child : negative w.child ≡ false) where
  launch-Keeps :
      (s : Shell) (argv : List Word)
      → IsJobSet shell s.jobs
      → Absent w.child s.jobs
      → Ensures (Keeps shell) (launch w s argv)
  unfolding launch
  launch-Keeps s argv v fresh =
      if-Ensures (Keeps shell) s.is_background _ _
        (λ _.
          if-Ensures (Keeps shell) (is_empty argv) _ _ (λ _. tt)
            (λ _.
              bind-Ensures (Keeps shell)
                (insert_background_job s.jobs (get_or argv 0 []) w.child w.reaped) _
                (λ (js, es) e.
                  started w.kernel shell s.jobs (get_or argv 0 []) w.child w.reaped es v fresh child
                    e)))
        (λ _.
          bind-Ensures (Keeps shell) (job_wait w.kernel s.jobs (get_or argv 0 []) w.child w.status)
            _
            (λ (js, es) e.
              waited w.kernel shell s.jobs (get_or argv 0 []) w.child w.status es v fresh child e))

  run_plain-Keeps :
      (s : Shell) (argv : List Word)
      → IsJobSet shell s.jobs
      → Absent w.child s.jobs
      → Ensures (Keeps shell) (run_plain w s argv)
  unfolding run_plain
  run_plain-Keeps s argv v fresh =
      bind-Ensures (Keeps shell) (redirection w.usable argv s.last_pipe) _ found
    where
      found :
          (r : Redirection)
          → redirection w.usable argv s.last_pipe ≡ some r
          → Ensures (Keeps shell) (elim r [
            | no_redirection ↦ launch w s argv
            | other ↦ some (record s { last_pipe = 0 }, Action.redirects other)
          ])
      found no_redirection e = launch-Keeps s argv v fresh
      found before_pipe e = v
      found (to_file m cmd file) e = v
      found (to_queues cmd rows) e = v
      found (to_memory cmd rows) e = v

  run_pipes-Keeps :
      (s : Shell) (argv : List Word)
      → IsJobSet shell s.jobs
      → Absent w.child s.jobs
      → Ensures (Keeps shell) (run_pipes w s argv)
  unfolding run_pipes
  run_pipes-Keeps s argv v fresh =
      let f0 : Filter = record no_commands {
        last_pipe = s.last_pipe;
        bad_redirect_pipe = s.bad_redirect_pipe;
      } in
      bind-Ensures (Keeps shell) (filter_from argv 0 argv f0) _ (λ f _.
        if-Ensures (Keeps shell) f.bad_redirect_pipe _ _ (λ _. v)
          (λ _.
            if-Ensures (Keeps shell) (is_empty f.commands) _ _
              (λ _. run_plain-Keeps (record s { last_pipe = f.last_pipe }) argv v fresh)
              (λ _.
                bind-Ensures (Keeps shell) (output_redirection argv f) _
                  (λ (cs, out, freed) _. v))))

  dispatch-Keeps :
      (s : Shell) (argv : List Word)
      → IsJobSet shell s.jobs
      → Absent w.child s.jobs
      → Ensures (Keeps shell) (dispatch w s argv)
  unfolding dispatch
  dispatch-Keeps s argv v fresh =
      if-Ensures (Keeps shell) (str_eq (last_word argv) (codes "&")) _ _
        (λ _. run_pipes-Keeps (record s { is_background = true }) (without_last argv) v fresh)
        (λ _.
          if-Ensures (Keeps shell) (str_eq (get_or argv 0 []) (codes "fg")) _ _
            (λ _.
              bind-Ensures (Keeps shell) (exec_fg w.kernel false s.jobs argv) _ (λ (flag, js, es) e.
                Ensures-some (FgKeeps w.kernel shell) (exec_fg w.kernel false s.jobs argv)
                  (flag, js, es) (exec_fg-FgKeeps w.kernel shell s.jobs argv v) e))
            (λ _.
              if-Ensures (Keeps shell) (str_eq (get_or argv 0 []) (codes "bg")) _ _
                (λ _.
                  bind-Ensures (Keeps shell) (exec_bg w.kernel s.parent_pid s.jobs argv) _
                    (λ (js, es) e.
                      Ensures-some (BgKeeps w.kernel shell)
                        (exec_bg w.kernel s.parent_pid s.jobs argv) (js, es)
                        (exec_bg-BgKeeps w.kernel shell s.parent_pid s.jobs argv v) e))
                (λ _.
                  if-Ensures (Keeps shell) s.is_daemon _ _ (λ _. v)
                    (λ _. run_pipes-Keeps s argv v fresh))))

  run_builtin-Keeps :
      (s : Shell) (argv : List Word) (b : Builtin)
      → IsJobSet shell s.jobs
      → Absent w.child s.jobs
      → Ensures (Keeps shell) (run_builtin w s argv b)
  unfolding run_builtin
  run_builtin-Keeps s argv not_builtin v fresh = dispatch-Keeps s argv v fresh
  run_builtin-Keeps s argv (runs_here argv') v fresh =
      dispatch-Keeps (record s { ignore_path = true }) argv' v fresh
  run_builtin-Keeps s argv needs_name v fresh = v
  run_builtin-Keeps s argv (changes_directory dir) v fresh = v

  run_args-Keeps :
      (s : Shell) (n : ℕ) (buffer : List ℕ)
      → IsJobSet shell s.jobs
      → Absent w.child s.jobs
      → Ensures (Keeps shell) (run_args w s n buffer)
  unfolding run_args
  run_args-Keeps s n buffer v fresh =
      bind-Ensures (Keeps shell) (init_args w.usable s.is_daemon buffer) _ (λ t _.
        if-Ensures (Keeps shell) (leb (length t.filled) n) _ _
          (λ _.
            bind-Ensures (Keeps shell) (builtin w.home t.filled) _
              (λ b _. run_builtin-Keeps (record s { is_daemon = t.is_daemon }) t.filled b v fresh))
          (λ _. tt))

  -- A line keeps the job list in shape, whatever the line is, the system says and the other globals
  -- of the shell are, when the pid of a new child is not negative and not in the list.
  pub run_line-IsJobSet :
      (s s' : Shell) (line : List ℕ) (a : Action)
      → IsJobSet shell s.jobs
      → Absent w.child s.jobs
      → run_line w s line ≡ some (s', a)
      → IsJobSet shell s'.jobs
  unfolding run_line
  run_line-IsJobSet s s' line a v fresh e =
      Ensures-some (Keeps shell) (run_line w s line) (s', a) kept e
    where
      behind :
          (js : List Job)
          → js ≡ unfinished w.done s.jobs
          → Ensures (Keeps shell) (
              if str_eq (cut_newline line) (codes "exit")
              then some (record s { jobs = js }, Action.leaves)
              else (if str_eq (cut_newline line) (codes "printlist")
                  then some (record s { jobs = js }, Action.lists_jobs)
                  else run_args w
                      (record s { jobs = js })
                      (get_argument_length line)
                      (cut_newline line)))
      behind js e =
          let v' : IsJobSet shell js = rw (e) (unfinished-IsJobSet w.done shell s.jobs v) in
          let fresh' : Absent w.child js =
            rw (e) (All-unfinished w.done (λ j. j.pid ≢ w.child) s.jobs fresh) in
          if-Ensures (Keeps shell) (str_eq (cut_newline line) (codes "exit")) _ _ (λ _. v')
            (λ _.
              if-Ensures (Keeps shell) (str_eq (cut_newline line) (codes "printlist")) _ _ (λ _. v')
                (λ _.
                  run_args-Keeps (record s { jobs = js }) (get_argument_length line)
                    (cut_newline line) v' fresh'))

      kept : Ensures (Keeps shell) (run_line w s line)
      kept =
          if-Ensures (Keeps shell) (str_eq line (newline ∷ [])) _ _ (λ _. v)
            (λ _. rw (reap_lem w.done shell s.jobs v) (behind (unfinished w.done s.jobs) refl))
