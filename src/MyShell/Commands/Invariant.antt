-- ===== src/MyShell/Commands/Invariant.antt =====
-- MyShell/shell.c: `fg` and `bg`, and the shape of the job list.
use network_programming_c.Prelude.{
  ℕ, ◌≡◌, ◌≢◌, refl, ap, subst, ◌∙◌, ◌⊎◌, inl, inr, true, false, none, some, List, [], ◌∷◌, ◌==◌,
  if◌then◌else◌, arith, Bool-cases, Option-cases,
}
use native.Mathlib.Decide.{ℕ_discrete}
use network_programming_c.MyShell.Jobs.{
  Status, suspended, background, Job, is_foreground, is_suspended, negative, remove_job, find_pid,
  change_status,
}
use network_programming_c.MyShell.Jobs.Laws.{
  Positive, IsJobSet, remove_job-IsJobSet, change_status-IsJobSet,
}
use network_programming_c.MyShell.Commands.{
  Kernel, Effect, can_continue, remove_in_place, fg_found, shell_fg_command, shell_bg_command,
}

find_pid-pid : (js : List Job) (pid : ℕ) (j : Job) → find_pid js pid ≡ some j → j.pid ≡ pid
unfolding find_pid
find_pid-pid [] pid j e = cc
find_pid-pid (x ∷ js) pid j e = ground (arith, find_pid-pid js pid j)

find_pid-Positive :
    (js : List Job) (pid : ℕ) (j : Job)
    → Positive js
    → find_pid js pid ≡ some j
    → negative pid ≡ false
unfolding find_pid
find_pid-Positive [] pid j p e = cc
find_pid-Positive (x ∷ js) pid j p e = elim (Bool-cases (x.pid == pid)) [
  | inl same ↦ let q : x.pid ≡ pid = ground arith in subst (λ n. negative n ≡ false) q (p.0)
  | inr other ↦ find_pid-Positive js pid j p.1 (rw other at e)
]

find_head : (h : Job) (rest : List Job) (pid : ℕ) → h.pid ≡ pid → find_pid (h ∷ rest) pid ≡ some h
unfolding find_pid
find_head h rest pid e = ground arith

-- A job that is not in the foreground is not the shell.
not_shell :
    (shell : ℕ) (js : List Job) (pid : ℕ) (j : Job)
    → IsJobSet shell js
    → find_pid js pid ≡ some j
    → is_foreground j.status ≡ false
    → pid ≢ shell
not_shell shell js pid j v e f same =
    ground (arith, v.own, v.front, find_head v.head v.rest pid, rw v.list at e)

remove_in_place_cons :
    (h : Job) (rest : List Job) (pid : ℕ)
    → h.pid ≢ pid
    → negative pid ≡ false
    → remove_in_place false (h ∷ rest) pid ≡ remove_job false (h ∷ rest) pid
unfolding remove_in_place
remove_in_place_cons h rest pid ne pos = ground arith

-- The lookup is as before, or its job went from suspended to background.
abbrev pub Continued : List Job → List Job → ℕ → Type 0
Continued js js' q =
    (find_pid js' q ≡ find_pid js q)
    ⊎ ((j : Job) × (find_pid js q ≡ some j)
        × (j.status ≡ suspended)
        × (find_pid js' q ≡ some (record j { status = background })))

module _ (k : Kernel) (shell : ℕ) where
  remove_in_place_lem :
      (js : List Job) (pid : ℕ)
      → IsJobSet shell js
      → pid ≢ shell
      → negative pid ≡ false
      → remove_in_place false js pid ≡ remove_job false js pid
  remove_in_place_lem js pid v ne pos =
      rw v.list (remove_in_place_cons v.head v.rest pid (ground (arith, v.own)) pos)

  taken_off :
      (js js' : List Job) (pid q : ℕ)
      → can_continue k pid ≡ true
      → find_pid js' q ≡ (if q == pid then none else find_pid js q)
      → (find_pid js' q ≡ find_pid js q)
        ⊎ ((q ≡ pid) × (can_continue k pid ≡ true) × (find_pid js' q ≡ none))
  taken_off js js' pid q g finds = elim (ℕ_discrete q pid) [
    | yes same ↦ inr (same, g, ground (arith, finds))
    | no other ↦ inl (ground (arith, finds))
  ]

  -- `fg` never faults, whatever its argument, and keeps the job list in shape. A job that is not in
  -- the foreground and can be continued is taken off the list, and no other job is; in every other
  -- case the list stays.
  pub shell_fg_command-IsJobSet :
      (js : List Job) (pid : ℕ)
      → IsJobSet shell js
      → (js' : List Job) × (es : List Effect) × (shell_fg_command k false js pid
          ≡ some (false, js', es))
        × IsJobSet shell js'
        × ((q : ℕ)
            → (find_pid js' q ≡ find_pid js q)
              ⊎ ((q ≡ pid) × (can_continue k pid ≡ true) × (find_pid js' q ≡ none)))
  unfolding shell_fg_command
  shell_fg_command-IsJobSet js pid v = elim (Option-cases (find_pid js pid)) [
    | inl e ↦ rw e (js, _, refl, v, λ q. inl refl)
    | inr (j, e) ↦ elim (Bool-cases (is_foreground j.status)) [
      | inl f ↦ rw (e, f) (js, _, refl, v, λ q. inl refl)
      | inr f ↦ elim (Bool-cases (can_continue k pid)) [
        | inr g ↦ rw (e, f, fg_found, g) (js, _, refl, v, λ q. inl refl)
        | inl g ↦
            let ne = not_shell shell js pid j v e f in
            let pos = find_pid-Positive js pid j v.positive e in
            let (js', r, finds, w) = remove_job-IsJobSet shell js pid v ne pos in
            rw (e, f, fg_found, g, remove_in_place_lem js pid v ne pos, r)
              (
                js',
                _,
                refl,
                w,
                λ q. elim (taken_off js js' pid q g (finds q)) [
                  | inl same ↦ inl same
                  | inr (same, _, gone) ↦ inr (same, refl, gone)
                ],
              )
      ]
    ]
  ]

  find_pid-change_status :
      (js : List Job) (pid q : ℕ) (st : Status)
      → find_pid (change_status js pid st) q ≡ (
          if q == pid
          then elim (find_pid js pid) [ none ↦ none | some j ↦ some (record j { status = st }) ]
          else find_pid js q)
  unfolding find_pid change_status
  find_pid-change_status [] pid q st = ground arith
  find_pid-change_status (j ∷ js) pid q st = ground (arith, find_pid-change_status js pid q st)

  suspended_of : (st : Status) → is_suspended st ≡ true → st ≡ suspended
  suspended_of st e = ground arith

  Continued-job :
      (js : List Job) (pid q : ℕ) (j : Job)
      → find_pid js pid ≡ some j
      → is_suspended j.status ≡ true
      → Continued js (change_status js pid background) q
  Continued-job js pid q j e f = elim (ℕ_discrete q pid) [
    | yes same ↦ inr (
      j,
      ap (find_pid js) same ∙ e,
      suspended_of j.status f,
      ground (arith, find_pid-change_status js pid q background, e),
    )
    | no other ↦ inl (ground (arith, find_pid-change_status js pid q background))
  ]

  not_front : (st : Status) → is_suspended st ≡ true → is_foreground st ≡ false
  not_front st e = ground arith

  -- `bg` keeps the job list in shape, whatever `parentPID` is. It changes nothing but the status of
  -- its job, which goes from suspended to background.
  pub shell_bg_command-IsJobSet :
      (parent_pid : ℕ) (js : List Job) (pid : ℕ)
      → IsJobSet shell js
      → let js' = (shell_bg_command k parent_pid js pid).0 in
        IsJobSet shell js' × ((q : ℕ) → Continued js js' q)
  unfolding shell_bg_command
  shell_bg_command-IsJobSet parent_pid js pid v = elim (Option-cases (find_pid js pid)) [
    | inl e ↦ rw (shell_bg_command, e) (v, λ q. inl refl)
    | inr (j, e) ↦ elim (Bool-cases (j.pid == parent_pid)) [
      | inl same ↦ rw (shell_bg_command, e, same) (v, λ q. inl refl)
      | inr other ↦ elim (Bool-cases (is_suspended j.status)) [
        | inr f ↦ rw (shell_bg_command, e, other, f) (v, λ q. inl refl)
        | inl f ↦ elim (Bool-cases (can_continue k pid)) [
          | inr g ↦ rw (shell_bg_command, e, other, f, g) (v, λ q. inl refl)
          | inl g ↦
              let ne = not_shell shell js pid j v e (not_front j.status f) in
              rw (shell_bg_command, e, other, f, g)
                (
                  change_status-IsJobSet shell js pid background v ne,
                  λ q. Continued-job js pid q j e f,
                )
        ]
      ]
    ]
  ]
