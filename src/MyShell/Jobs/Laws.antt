-- ===== src/MyShell/Jobs/Laws.antt =====
-- MyShell/shell.c: lookups in the job list behind its operations, and the shape of the list.
use network_programming_c.Prelude.{
  ℕ, ◌≡◌, ◌≢◌, refl, sym, false, none, some, List, [], ◌∷◌, ◌++◌, ◌==◌, if◌then◌else◌, arith, All,
}
use network_programming_c.MyShell.Jobs.{
  Status, foreground, Job, negative, insert, remove_behind, remove_job, find_pid, change_status,
}

-- No job of the list has the pid.
abbrev pub Absent : ℕ → List Job → Type 0
Absent pid = All (λ j. j.pid ≢ pid)

abbrev pub Distinct : List Job → Type 0
Distinct [] = Unit
Distinct (j ∷ js) = Absent j.pid js × Distinct js

-- The pids are not negative.
abbrev pub Positive : List Job → Type 0
Positive = All (λ j. negative j.pid ≡ false)

-- The list that the shell keeps: it begins with the shell itself, in the foreground, and the pids
-- are distinct and not negative.
pub record IsJobSet (shell : ℕ) (js : List Job) : Type 0 where
  pub head : Job
  pub rest : List Job
  pub list : js ≡ head ∷ rest
  pub own : head.pid ≡ shell
  pub front : head.status ≡ foreground
  pub distinct : Distinct js
  pub positive : Positive js

pub find_pid-remove_behind :
    (pid q : ℕ) (js : List Job)
    → find_pid (remove_behind pid js) q ≡ (if q == pid then none else find_pid js q)
unfolding find_pid remove_behind
find_pid-remove_behind pid q [] = ground arith
find_pid-remove_behind pid q (j ∷ js) = ground (arith, find_pid-remove_behind pid q js)

find_pid-append :
    (q : ℕ) (js ks : List Job)
    → find_pid (js ++ ks) q ≡ elim (find_pid js q) [ none ↦ find_pid ks q | some j ↦ some j ]
unfolding find_pid
find_pid-append q [] ks = refl
find_pid-append q (j ∷ js) ks = ground (arith, find_pid-append q js ks)

-- A job that is absent goes to the end.
pub insert-Absent :
    (js : List Job) (j node : Job)
    → Absent node.pid (j ∷ js)
    → insert (j ∷ js) node ≡ some (j ∷ (js ++ node ∷ []))
unfolding insert
insert-Absent [] j node a = ground (arith, a.0)
insert-Absent (k ∷ js) j node a = rw (insert-Absent js k node a.1)

pub Absent-remove_behind :
    (p pid : ℕ) (js : List Job) → Absent p js → Absent p (remove_behind pid js)
unfolding remove_behind
Absent-remove_behind p pid [] a = tt
Absent-remove_behind p pid (j ∷ js) a = ground (arith, Absent-remove_behind p pid js a.1)

pub Distinct-remove_behind :
    (pid : ℕ) (js : List Job) → Distinct js → Distinct (remove_behind pid js)
unfolding remove_behind
Distinct-remove_behind pid [] d = tt
Distinct-remove_behind pid (j ∷ js) d =
    ground (arith, Absent-remove_behind j.pid pid js d.0, Distinct-remove_behind pid js d.1)

Absent-append :
    (p : ℕ) (js : List Job) (n : Job) → Absent p js → n.pid ≢ p → Absent p (js ++ n ∷ [])
Absent-append p [] n a h = (h, tt)
Absent-append p (j ∷ js) n a h = (a.0, Absent-append p js n a.1 h)

Distinct-append :
    (js : List Job) (n : Job) → Distinct js → Absent n.pid js → Distinct (js ++ n ∷ [])
Distinct-append [] n d a = (tt, tt)
Distinct-append (j ∷ js) n d a =
    (Absent-append j.pid js n d.0 (λ e. a.0 (sym e)), Distinct-append js n d.1 a.1)

Absent-change_status :
    (p pid : ℕ) (st : Status) (js : List Job) → Absent p js → Absent p (change_status js pid st)
unfolding change_status
Absent-change_status p pid st [] a = tt
Absent-change_status p pid st (j ∷ js) a = ground (arith, Absent-change_status p pid st js a.1)

Distinct-change_status :
    (pid : ℕ) (st : Status) (js : List Job) → Distinct js → Distinct (change_status js pid st)
unfolding change_status
Distinct-change_status pid st [] d = tt
Distinct-change_status pid st (j ∷ js) d =
    ground (arith, Absent-change_status j.pid pid st js d.0, Distinct-change_status pid st js d.1)

Positive-append :
    (js : List Job) (n : Job) → Positive js → negative n.pid ≡ false → Positive (js ++ n ∷ [])
Positive-append [] n a h = (h, tt)
Positive-append (j ∷ js) n a h = (a.0, Positive-append js n a.1 h)

pub Positive-remove_behind :
    (pid : ℕ) (js : List Job) → Positive js → Positive (remove_behind pid js)
unfolding remove_behind
Positive-remove_behind pid [] a = tt
Positive-remove_behind pid (j ∷ js) a = ground (arith, Positive-remove_behind pid js a.1)

Positive-change_status :
    (pid : ℕ) (st : Status) (js : List Job) → Positive js → Positive (change_status js pid st)
unfolding change_status
Positive-change_status pid st [] a = tt
Positive-change_status pid st (j ∷ js) a = ground (arith, Positive-change_status pid st js a.1)

pub remove_job_behind :
    (pid : ℕ) (h : Job) (rest : List Job)
    → h.pid ≢ pid
    → negative pid ≡ false
    → remove_job false (h ∷ rest) pid ≡ some (false, h ∷ remove_behind pid rest)
unfolding remove_job
remove_job_behind pid h rest ne pos = ground arith

find_pid-remove :
    (pid q : ℕ) (h : Job) (rest : List Job)
    → h.pid ≢ pid
    → find_pid (h ∷ remove_behind pid rest) q ≡ (if q == pid then none else find_pid (h ∷ rest) q)
unfolding find_pid
find_pid-remove pid q h rest ne = ground (arith, find_pid-remove_behind pid q rest)

change_status_behind :
    (pid : ℕ) (st : Status) (h : Job) (rest : List Job)
    → h.pid ≢ pid
    → change_status (h ∷ rest) pid st ≡ h ∷ change_status rest pid st
unfolding change_status
change_status_behind pid st h rest ne = ground arith

module _ (shell : ℕ) where
  -- A new pid is added at the end, and the list keeps its shape.
  pub insert-IsJobSet :
      (js : List Job) (node : Job)
      → IsJobSet shell js
      → Absent node.pid js
      → negative node.pid ≡ false
      → (insert js node ≡ some (js ++ node ∷ [])) × IsJobSet shell (js ++ node ∷ [])
  insert-IsJobSet js node v a pos = rw v.list (
    insert-Absent v.rest v.head node (rw v.list at a),
    record {
      head = v.head;
      rest = v.rest ++ node ∷ [];
      list = refl;
      own = v.own;
      front = v.front;
      distinct = Distinct-append (v.head ∷ v.rest) node (rw v.list at v.distinct) (rw v.list at a);
      positive = Positive-append (v.head ∷ v.rest) node (rw v.list at v.positive) pos;
    },
  )

  -- A job other than the shell is taken off: nobody finds it any more, every other lookup is as
  -- before, and the list keeps its shape.
  pub remove_job-IsJobSet :
      (js : List Job) (pid : ℕ)
      → IsJobSet shell js
      → pid ≢ shell
      → negative pid ≡ false
      → (js' : List Job) × (remove_job false js pid ≡ some (false, js'))
        × ((q : ℕ) → find_pid js' q ≡ (if q == pid then none else find_pid js q))
        × IsJobSet shell js'
  remove_job-IsJobSet js pid v ne pos =
      let other : v.head.pid ≢ pid = ground (arith, v.own) in
      (
        v.head ∷ remove_behind pid v.rest,
        rw v.list (remove_job_behind pid v.head v.rest other pos),
        λ q. rw v.list (find_pid-remove pid q v.head v.rest other),
        record {
          head = v.head;
          rest = remove_behind pid v.rest;
          list = refl;
          own = v.own;
          front = v.front;
          distinct =
              let d : Distinct (v.head ∷ v.rest) = rw v.list at v.distinct in
              (
                Absent-remove_behind v.head.pid pid v.rest d.0,
                Distinct-remove_behind pid v.rest d.1,
              );
          positive =
              let d : Positive (v.head ∷ v.rest) = rw v.list at v.positive in
              (d.0, Positive-remove_behind pid v.rest d.1);
        },
      )

  pub change_status-IsJobSet :
      (js : List Job) (pid : ℕ) (st : Status)
      → IsJobSet shell js
      → pid ≢ shell
      → IsJobSet shell (change_status js pid st)
  change_status-IsJobSet js pid st v ne =
      let other : v.head.pid ≢ pid = ground (arith, v.own) in
      let same = change_status_behind pid st v.head v.rest other in
      record {
        head = v.head;
        rest = change_status v.rest pid st;
        list = rw v.list same;
        own = v.own;
        front = v.front;
        distinct = Distinct-change_status pid st js v.distinct;
        positive = Positive-change_status pid st js v.positive;
      }
