-- ===== src/MyShell/Commands/Runs.antt =====
-- MyShell/shell.c: the job list behind a child that is waited for or put into it.
use network_programming_c.Prelude.{
  ℕ, ◌≡◌, subst, inl, inr, if◌then◌else◌, Bool, false, some, List, [], ◌∷◌, ◌++◌, ◌==◌, Bool-cases,
}
use network_programming_c.MyShell.Jobs.{background, Job, negative}
use network_programming_c.MyShell.Jobs.Laws.{Absent, IsJobSet, insert-IsJobSet}
use network_programming_c.MyShell.Commands.{
  Kernel, Effect, prints, finished_job, job_wait, insert_background_job, stop_signal,
}
use network_programming_c.MyShell.Commands.Suspension.{
  suspended_node, job_wait_zero, job_wait_insert,
}

module _ (k : Kernel) (shell : ℕ) where
  pub waited :
      (js : List Job) (argv0 : List ℕ) (pid status : ℕ) (es : List Effect) {js' : List Job}
      → IsJobSet shell js
      → Absent pid js
      → negative pid ≡ false
      → job_wait k js argv0 pid status ≡ some (js', es)
      → IsJobSet shell js'
  waited js argv0 pid status es v fresh pos e =
      let (eq, w) =
        insert-IsJobSet shell js (suspended_node k shell js argv0 pid v fresh pos) v fresh pos in
      elim (Bool-cases (stop_signal status == 0)) [
        | inl z ↦
            let q = job_wait_zero k shell js argv0 pid v fresh pos status z in
            subst (IsJobSet shell) (cc) v
        | inr z ↦
            let q = job_wait_insert k shell js argv0 pid v fresh pos status z in
            subst (IsJobSet shell) (cc) w
      ]

  pub started :
      (js : List Job) (argv0 : List ℕ) (pid : ℕ) (reaped : Bool) (es : List Effect) {js' : List Job}
      → IsJobSet shell js
      → Absent pid js
      → negative pid ≡ false
      → insert_background_job js argv0 pid reaped ≡ some (js', es)
      → IsJobSet shell js'
  unfolding insert_background_job
  started js argv0 pid reaped es v fresh pos e =
      let node : Job = record { pid = pid; name = argv0; status = background; gid = pid } in
      let (eq, w) = insert-IsJobSet shell js node v fresh pos in
      let q : insert_background_job js argv0 pid reaped
          ≡ some (js ++ node ∷ [], if reaped then prints (finished_job pid) ∷ [] else []) =
        rw (insert_background_job, eq) in
      subst (IsJobSet shell) (cc) w
