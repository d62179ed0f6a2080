-- ===== src/MyShell/Commands/Suspension.antt =====
-- MyShell/shell.c: the children that `job_wait` takes for suspended ones.
use network_programming_c.Prelude.{
  ℕ, suc, ◌+◌, ◌*◌, ◌<◌, ◌≡◌, true, false, some, List, [], ◌∷◌, ◌++◌, ◌==◌, arith,
}
use network_programming_c.MyShell.Jobs.{suspended, Job, negative}
use network_programming_c.MyShell.Jobs.Laws.{Absent, IsJobSet, insert-IsJobSet}
use network_programming_c.MyShell.Commands.{
  Kernel, prints, suspended_job, waits, gives_terminal, stop_signal, job_wait,
}

-- The wait status of a process that exits with a code, that a signal kills (with or without a core
-- dump, `core`), and that a signal stops.
abbrev pub exited : ℕ → ℕ
exited code = code * 256

abbrev pub killed : ℕ → ℕ → ℕ
killed core signo = core * 128 + signo

abbrev pub stopped : ℕ → ℕ
stopped signo = signo * 256 + 127

module _ (k : Kernel) (shell : ℕ) (js : List Job) (argv0 : List ℕ) (pid : ℕ) (v : IsJobSet shell js)
    (fresh : Absent pid js) (positive : negative pid ≡ false) where
  abbrev pub suspended_node : Job
  suspended_node = record { pid = pid; name = argv0; status = suspended; gid = k.group_of k.self }

  pub job_wait_zero :
      (status : ℕ)
      → (stop_signal status == 0) ≡ true
      → job_wait k js argv0 pid status ≡ some (js, waits pid ∷ [])
  unfolding job_wait
  job_wait_zero status e = rw e

  pub job_wait_insert :
      (status : ℕ)
      → (stop_signal status == 0) ≡ false
      → job_wait k js argv0 pid status
        ≡ some (
          js ++ suspended_node ∷ [],
          waits pid ∷ prints (suspended_job pid) ∷ gives_terminal k.self ∷ [],
        )
  unfolding job_wait
  job_wait_insert status e = rw (e, (insert-IsJobSet shell js suspended_node v fresh positive).0)

  -- A child that is stopped, and a child that exits with a code other than 0, go into the job list
  -- as suspended, behind the others. A child that exits with 0 or is killed does not. The list
  -- before is in shape, and the pid of the child is not negative and not in it. The codes are below
  -- 256 and the signals below 128.
  pub job_wait_lem :
      (code signo core : ℕ)
      → suc code < 256
      → suc signo < 128
      → core < 2
      → (job_wait k js argv0 pid (exited (suc code))
          ≡ some (
            js ++ suspended_node ∷ [],
            waits pid ∷ prints (suspended_job pid) ∷ gives_terminal k.self ∷ [],
          ))
        × (job_wait k js argv0 pid (exited 0) ≡ some (js, waits pid ∷ []))
        × (job_wait k js argv0 pid (killed core (suc signo)) ≡ some (js, waits pid ∷ []))
        × (job_wait k js argv0 pid (stopped (suc signo))
            ≡ some (
              js ++ suspended_node ∷ [],
              waits pid ∷ prints (suspended_job pid) ∷ gives_terminal k.self ∷ [],
            ))
  job_wait_lem code signo core hc hs hk = (
    job_wait_insert (exited (suc code)) (ground arith),
    job_wait_zero (exited 0) (ground arith),
    job_wait_zero (killed core (suc signo)) (ground arith),
    job_wait_insert (stopped (suc signo)) (ground arith),
  )
