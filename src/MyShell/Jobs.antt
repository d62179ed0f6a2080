-- ===== src/MyShell/Jobs.antt =====
-- MyShell/shell.c: the job list. ClusterShell/common.c has the same functions.
pub mod Laws
pub mod Reap
use network_programming_c.Prelude.{
  ℕ, zero, suc, Bool, true, false, ◌&&◌, ◌||◌, Option, none, some, List, [], ◌∷◌, leb, ◌==◌,
  if◌then◌else◌, ◌>>=◌, str_eq, get_elem?,
}

pub data Status : Type 0 where
  suspended background foreground : Status

abbrev pub is_background : Status → Bool
is_background background = true
is_background _ = false

abbrev pub is_foreground : Status → Bool
is_foreground foreground = true
is_foreground _ = false

abbrev pub is_suspended : Status → Bool
is_suspended suspended = true
is_suspended _ = false

-- `struct _Node_t`. An `int` is its 32-bit pattern.
pub record Job : Type 0 where
  pub pid : ℕ
  pub name : List ℕ
  pub status : Status
  pub gid : ℕ

-- `pid < 0`.
abbrev pub negative : ℕ → Bool
negative pid = leb 0x80000000 pid

abbrev pub minus_one : ℕ
minus_one = 0xffffffff

-- A `Job*` is the list from there on, and NULL the empty list. `none` is a read through NULL.
unfoldable pub insert : List Job → Job → Option (List Job)
insert [] node = none
insert (j ∷ []) node = some (if j.pid == node.pid then j ∷ [] else j ∷ node ∷ [])
insert (j ∷ k ∷ js) node = insert (k ∷ js) node >>= λ r. some (j ∷ r)

-- The loop of `removeJob` behind the head.
unfoldable pub remove_behind : ℕ → List Job → List Job
remove_behind pid [] = []
remove_behind pid (j ∷ js) =
    let rest = remove_behind pid js in if j.pid == pid then rest else j ∷ rest

-- The first part of the result is the flag `isSuspended` afterwards.
unfoldable pub remove_job : Bool → List Job → ℕ → Option (Bool × List Job)
unfolding remove_behind
remove_job true head pid = some (false, head)
remove_job false [] pid = none
remove_job false (j ∷ js) pid =
    some (false, if negative pid || j.pid == pid then js else j ∷ remove_behind pid js)

unfoldable pub find_pid : List Job → ℕ → Option Job
find_pid [] pid = none
find_pid (j ∷ js) pid = let rest = find_pid js pid in if j.pid == pid then some j else rest

unfoldable pub first_foreground : List Job → ℕ
first_foreground [] = minus_one
first_foreground (j ∷ js) =
    let rest = first_foreground js in if is_foreground j.status then j.pid else rest

-- The search begins behind the head, the shell itself.
unfoldable pub find_fg_status : List Job → Option ℕ
unfolding first_foreground
find_fg_status [] = none
find_fg_status (j ∷ js) = some (first_foreground js)

unfoldable pub change_status : List Job → ℕ → Status → List Job
change_status [] pid status = []
change_status (j ∷ js) pid status =
    let rest = change_status js pid status in
    if j.pid == pid then record j { status = status } ∷ js else j ∷ rest

unfoldable pub get_pid_from_name : List Job → List ℕ → ℕ
get_pid_from_name [] name = 0
get_pid_from_name (j ∷ js) name =
    let rest = get_pid_from_name js name in if str_eq j.name name then j.pid else rest

-- A background job for which `waitpid` with WNOHANG returns other than 0.
abbrev pub finished : (ℕ → Bool) → Job → Bool
finished done j = is_background j.status && done j.pid

-- The loop of `main` that takes the finished jobs off the list; `curr` is the job with index `k`.
-- After a removal the loop goes on behind the head. `none`: out of fuel, or a read through NULL.
unfoldable pub reap : (ℕ → Bool) → ℕ → Bool → ℕ → List Job → Option (Bool × List Job)
reap done zero flag k js = none
reap done (suc fuel) flag k js = elim (get_elem? js k) [
  | none ↦ some (flag, js)
  | some j ↦ elim (finished done j) [
    | false ↦ reap done fuel flag (suc k) js
    | true ↦ elim (remove_job flag js j.pid) [
      | none ↦ none
      | some (flag', []) ↦ none
      | some (flag', h ∷ rest) ↦ reap done fuel flag' 1 (h ∷ rest)
    ]
  ]
]
