-- ===== src/MyShell/Commands/Names.antt =====
-- MyShell/shell.c: `exec_fg` and `exec_bg`, with a job that is named or numbered, and the job list.
use network_programming_c.Prelude.{
  ℕ, Bool, false, Bool-cases, inl, inr, List, [], ◌∷◌, drop, get_elem?, Ensures, bind-Ensures,
  if-Ensures, ◌==◌,
}
use network_programming_c.MyShell.Jobs.{Job, get_pid_from_name}
use network_programming_c.MyShell.Jobs.Laws.{IsJobSet}
use network_programming_c.MyShell.Commands.{
  Kernel, Effect, exec_fg, exec_bg, atoi, char_at, bg_by_name, shell_fg_command, shell_bg_command,
}
use network_programming_c.MyShell.Commands.Invariant.{
  shell_fg_command-IsJobSet, shell_bg_command-IsJobSet,
}
use network_programming_c.MyShell.Pipes.{Word}

module _ (k : Kernel) (shell : ℕ) where
  abbrev pub FgKeeps : Bool × List Job × List Effect → Type 0
  FgKeeps (flag, js, es) = IsJobSet shell js

  abbrev pub BgKeeps : List Job × List Effect → Type 0
  BgKeeps (js, es) = IsJobSet shell js

  fg-FgKeeps :
      (js : List Job) (pid : ℕ)
      → IsJobSet shell js
      → Ensures FgKeeps (shell_fg_command k false js pid)
  fg-FgKeeps js pid v =
      let (js', es, e, v', _) = shell_fg_command-IsJobSet k shell js pid v in rw (e) v'

  pub exec_fg-FgKeeps :
      (js : List Job) (argv : List Word)
      → IsJobSet shell js
      → Ensures FgKeeps (exec_fg k false js argv)
  unfolding exec_fg
  exec_fg-FgKeeps [] argv v = v
  exec_fg-FgKeeps (j ∷ js) argv v = bind-Ensures FgKeeps (get_elem? argv 1) _ (λ a _.
      bind-Ensures FgKeeps (char_at a 0) _ (λ c _.
        if-Ensures FgKeeps (c == b'%') _ _
          (λ _. bind-Ensures FgKeeps (char_at a 1) _ (λ d _.
            if-Ensures FgKeeps (d == 0) _ _ (λ _. fg-FgKeeps (j ∷ js) (atoi a) v)
              (λ _.
                if-Ensures FgKeeps (get_pid_from_name (j ∷ js) (drop 1 a) == 0) _ _ (λ _. v)
                  (λ _. fg-FgKeeps (j ∷ js) (get_pid_from_name (j ∷ js) (drop 1 a)) v))))
          (λ _. fg-FgKeeps (j ∷ js) (atoi a) v)))

  bg-BgKeeps :
      (parent_pid : ℕ) (js : List Job) (pid : ℕ)
      → IsJobSet shell js
      → BgKeeps (shell_bg_command k parent_pid js pid)
  bg-BgKeeps parent_pid js pid v = (shell_bg_command-IsJobSet k shell parent_pid js pid v).0

  bg_by_name-BgKeeps :
      (parent_pid : ℕ) (js : List Job) (name : List ℕ)
      → IsJobSet shell js
      → BgKeeps (bg_by_name k parent_pid js name)
  unfolding bg_by_name
  bg_by_name-BgKeeps parent_pid js name v = elim (Bool-cases (get_pid_from_name js name == 0)) [
    | inl e ↦ rw e v
    | inr e ↦ rw e (bg-BgKeeps parent_pid js (get_pid_from_name js name) v)
  ]

  pub exec_bg-BgKeeps :
      (parent_pid : ℕ) (js : List Job) (argv : List Word)
      → IsJobSet shell js
      → Ensures BgKeeps (exec_bg k parent_pid js argv)
  unfolding exec_bg
  exec_bg-BgKeeps parent_pid [] argv v = v
  exec_bg-BgKeeps parent_pid (j ∷ js) argv v = bind-Ensures BgKeeps (get_elem? argv 1) _ (λ a _.
      bind-Ensures BgKeeps (char_at a 0) _ (λ c _.
        if-Ensures BgKeeps (c == b'%') _ _
          (λ _. bind-Ensures BgKeeps (char_at a 2) _ (λ d _. elim (Bool-cases (d == 0)) [
            | inl e ↦ rw e (bg-BgKeeps parent_pid (j ∷ js) (atoi a) v)
            | inr e ↦ rw e (bg_by_name-BgKeeps parent_pid (j ∷ js) (drop 1 a) v)
          ]))
          (λ _. bg-BgKeeps parent_pid (j ∷ js) (atoi a) v)))
