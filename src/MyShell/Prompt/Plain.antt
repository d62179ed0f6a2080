-- ===== src/MyShell/Prompt/Plain.antt =====
-- MyShell/shell.c: a line of words, from the input to the child that runs them.
use network_programming_c.Prelude.{
  ℕ, ◌+◌, ◌≡◌, ◌≢◌, refl, ap, subst, ◌∙◌, true, false, some, List, [], ◌∷◌, ◌++◌, length, get_or,
  leb, str_eq, codes, arith, All, append-nil, ◌==◌, if◌then◌else◌, Bool-cases, inl, inr,
}
use network_programming_c.MyShell.Jobs.{Job, suspended, negative}
use network_programming_c.MyShell.Jobs.Laws.{Absent, IsJobSet}
use network_programming_c.MyShell.Jobs.Reap.{
  unfinished, reap_lem, unfinished-IsJobSet, All-unfinished,
}
use network_programming_c.MyShell.Commands.{
  Effect, prints, suspended_job, waits, gives_terminal, stop_signal,
}
use network_programming_c.MyShell.Commands.Suspension.{job_wait_zero, job_wait_insert}
use network_programming_c.MyShell.Lines.{newline, cut_newline}
use network_programming_c.MyShell.Args.{split_args, init_args, get_argument_length}
use network_programming_c.MyShell.Args.Slots.{one_if, length-line}
use network_programming_c.MyShell.Args.Words.{
  NoSpace, IsWord, line, words, split_args-words, strings_fit-line,
}
use network_programming_c.MyShell.Pipes.{Word, all_fit, Filter, no_commands, filter_from}
use network_programming_c.MyShell.Pipes.Split.{IsPlain, filter_from-words}
use network_programming_c.MyShell.Builtin.{not_builtin, builtin}
use network_programming_c.MyShell.Redirect.{redirection, redirection_from, no_redirection}
use network_programming_c.MyShell.Redirect.Outputs.{NoOperator, redirection_from-words}
use network_programming_c.MyShell.Prompt.{
  Shell, World, launches, launch, run_plain, run_pipes, last_word, dispatch, run_builtin, run_args,
  run_line,
}

pub cut_newline-end : (s : List ℕ) → All (λ c. c ≢ newline) s → cut_newline (s ++ newline ∷ []) ≡ s
unfolding cut_newline
cut_newline-end [] a = refl
cut_newline-end (c ∷ s) a = ground (arith, cut_newline-end s a.1)

line-nonempty : (v : List ℕ) (r : List (ℕ × List ℕ)) → v ≢ [] → line v r ≢ []
line-nonempty [] r h = absurd (h refl)
line-nonempty (c ∷ v) [] h = λ e. cc
line-nonempty (c ∷ v) (x ∷ r) h = λ e. cc

-- Arguments of a program that is run in the foreground, with no pipe or redirection.
pub record IsCommand (w : World) (s : Shell) (argv : List Word) : Type 0 where
  pub own : builtin w.home argv ≡ some not_builtin
  pub first :
      (str_eq (get_or argv 0 []) (codes "fg") ≡ false)
      × (str_eq (get_or argv 0 []) (codes "bg") ≡ false)
  pub last : str_eq (last_word argv) (codes "&") ≡ false
  pub plain : All IsPlain argv
  pub no_operator : NoOperator argv

filter_from-all :
    (argv : List Word) (f : Filter)
    → All IsPlain argv
    → filter_from argv 0 argv f ≡ some (record f { pipearg_count = f.pipearg_count + length argv })
unfolding filter_from
filter_from-all argv f a =
    subst
      (λ ws.
        filter_from argv 0 ws f ≡ some (record f { pipearg_count = f.pipearg_count + length argv }))
      (append-nil argv) (filter_from-words argv 0 argv [] f a)

redirection-none :
    (usable : ℕ → ℕ) (argv : List Word)
    → NoOperator argv
    → redirection usable argv 0 ≡ some no_redirection
unfolding redirection redirection_from
redirection-none usable argv a =
    subst (λ ws. redirection_from usable argv 0 0 ws ≡ some no_redirection) (append-nil argv)
      (redirection_from-words usable argv 0 argv [] a)

run_pipes-words :
    (w : World) (s : Shell) (argv : List Word)
    → All IsPlain argv
    → NoOperator argv
    → s.bad_redirect_pipe ≡ false
    → s.last_pipe ≡ 0
    → run_pipes w s argv ≡ launch w s argv
unfolding run_pipes run_plain launch
run_pipes-words w s argv a b c d =
    let f0 : Filter = record no_commands {
      last_pipe = s.last_pipe;
      bad_redirect_pipe = s.bad_redirect_pipe;
    } in
    rw (filter_from-all argv f0 a, c, d, redirection-none w.usable argv b, c) refl

-- A line of words that is not for the shell itself: it has no newline or zero byte, is neither
-- `exit` nor `printlist`, and does not begin with `daemonize`. No flag is left from the lines
-- before it.
pub record IsProgram (s : Shell) (w : List ℕ) (r : List (ℕ × List ℕ)) : Type 0 where
  pub first_word : NoSpace w × (w ≢ [])
  pub other_words : All IsWord r
  pub bytes : All (λ c. (c ≢ newline) × (c ≢ 0)) (line w r)
  pub no_exit : str_eq (line w r) (codes "exit") ≡ false
  pub no_printlist : str_eq (line w r) (codes "printlist") ≡ false
  pub no_daemon : (str_eq w (codes "daemonize") ≡ false) × (s.is_daemon ≡ false)
  pub pipes : (s.bad_redirect_pipe ≡ false) × (s.last_pipe ≡ 0)

pub bytes-not_newline :
    (xs : List ℕ) → All (λ c. (c ≢ newline) × (c ≢ 0)) xs → All (λ c. c ≢ newline) xs
bytes-not_newline [] a = tt
bytes-not_newline (x ∷ xs) a = (a.0.0, bytes-not_newline xs a.1)

pub bytes-not_zero : (xs : List ℕ) → All (λ c. (c ≢ newline) × (c ≢ 0)) xs → All (λ c. c ≢ 0) xs
bytes-not_zero [] a = tt
bytes-not_zero (x ∷ xs) a = (a.0.1, bytes-not_zero xs a.1)

split_args-program :
    (s : Shell) (w : List ℕ) (r : List (ℕ × List ℕ))
    → IsProgram s w r
    → split_args false (line w r) ≡ record { is_daemon = false; filled = w ∷ words r; current = [] }
split_args-program s w [] p = split_args-words w [] p.first_word.0 p.other_words
split_args-program s w (x ∷ r) p =
    split_args-words w (x ∷ r) p.first_word.0 p.other_words ∙ rw (p.no_daemon.0) refl

length-program :
    (s : Shell) (w : List ℕ) (r : List (ℕ × List ℕ))
    → IsProgram s w r
    → leb (length (w ∷ words r)) (get_argument_length (line w r ++ newline ∷ [])) ≡ true
length-program s w r p =
    let e = length-line (line w r) (bytes-not_zero (line w r) p.bytes) in
    let f : length (w ∷ words r) + 0 ≡ get_argument_length (line w r ++ newline ∷ []) =
      subst
        (λ t. length t.filled + one_if t.is_daemon ≡ get_argument_length (line w r ++ newline ∷ []))
        (split_args-program s w r p) e in
    ground (arith, f)

-- Only an empty line is read as a single newline.
str_eq-newline : (xs : List ℕ) → xs ≢ [] → str_eq (xs ++ newline ∷ []) (newline ∷ []) ≡ false
unfolding str_eq
str_eq-newline [] h = absurd (h refl)
str_eq-newline (x ∷ []) h = ground arith
str_eq-newline (x ∷ y ∷ xs) h = ground arith

-- A line of words that is not for the shell itself comes to the cutting at the pipes.
pub run_line-words :
    (w : World) (shell : ℕ) (s : Shell) (c : List ℕ) (r : List (ℕ × List ℕ))
    → IsJobSet shell s.jobs
    → IsProgram s c r
    → all_fit w.usable (c ∷ words r) ≡ true
    → builtin w.home (c ∷ words r) ≡ some not_builtin
    → (str_eq (get_or (c ∷ words r) 0 []) (codes "fg") ≡ false)
      × (str_eq (get_or (c ∷ words r) 0 []) (codes "bg") ≡ false)
    → str_eq (last_word (c ∷ words r)) (codes "&") ≡ false
    → run_line w s (line c r ++ newline ∷ [])
      ≡ run_pipes w (record s { jobs = unfinished w.done s.jobs; is_daemon = false }) (c ∷ words r)
unfolding run_line run_args run_builtin dispatch init_args
run_line-words w shell s c r v p room own first last =
    let f = strings_fit-line w.usable c r p.first_word.0 p.other_words room in
    let n : str_eq (line c r ++ newline ∷ []) (newline ∷ []) ≡ false =
      str_eq-newline (line c r) (line-nonempty c r p.first_word.1) in
    rw
      (
        n,
        reap_lem w.done shell s.jobs v,
        cut_newline-end (line c r) (bytes-not_newline (line c r) p.bytes),
        p.no_exit,
        p.no_printlist,
        p.no_daemon.1,
        f,
        split_args-program s c r p,
        length-program s c r p,
        own,
        last,
        first.0,
        first.1,
      )
      refl

-- The list behind a child that was waited for, and what is done for it: one whose `WSTOPSIG` is
-- not 0 goes behind the others.
abbrev pub jobs_behind : World → List Job → List ℕ → List Job
jobs_behind w js c =
    if stop_signal w.status == 0
    then js
    else js
      ++ record {
        pid = w.child;
        name = c;
        status = suspended;
        gid = w.kernel.group_of w.kernel.self;
      }
        ∷ []

abbrev pub effects_behind : World → List Effect
effects_behind w =
    if stop_signal w.status == 0
    then waits w.child ∷ []
    else waits w.child ∷ prints (suspended_job w.child) ∷ gives_terminal w.kernel.self ∷ []

-- The child is started, and waited for.
launch-waits :
    (w : World) (shell : ℕ) (s : Shell) (c : List ℕ) (args : List Word)
    → IsJobSet shell s.jobs
    → Absent w.child s.jobs
    → negative w.child ≡ false
    → s.is_background ≡ false
    → launch w s (c ∷ args)
      ≡ some (
        record {
          jobs = jobs_behind w s.jobs c;
          parent_pid = w.kernel.self;
          is_background = false;
          is_daemon = s.is_daemon;
          ignore_path = false;
          bad_redirect_pipe = s.bad_redirect_pipe;
          last_pipe = 0;
        },
        launches false (c ∷ args) (effects_behind w),
      )
unfolding launch
launch-waits w shell s c args v fresh pos b = elim (Bool-cases (stop_signal w.status == 0)) [
  | inl z ↦ rw (b, job_wait_zero w.kernel shell s.jobs c w.child v fresh pos w.status z, z) refl
  | inr z ↦ rw (b, job_wait_insert w.kernel shell s.jobs c w.child v fresh pos w.status z, z) refl
]

-- A line of a program, with its arguments behind spaces, starts exactly this program with exactly
-- these arguments in the foreground, and waits for it, when no flag is left from the lines before
-- it, no argument is an operator of the shell, and the first is not a command of the shell itself.
-- Each word fits, with a zero behind it, the string that `malloc` was asked one byte for, and the
-- pid of the child is not negative and not in the list. The jobs that have ended are taken off the
-- list, and a child whose wait status has a `WSTOPSIG` other than 0 is put behind the others.
pub run_line-launch :
    (w : World) (shell : ℕ) (s : Shell) (c : List ℕ) (r : List (ℕ × List ℕ))
    → IsJobSet shell s.jobs
    → Absent w.child s.jobs
    → negative w.child ≡ false
    → s.is_background ≡ false
    → IsProgram s c r
    → all_fit w.usable (c ∷ words r) ≡ true
    → IsCommand w s (c ∷ words r)
    → run_line w s (line c r ++ newline ∷ [])
      ≡ some (
        record {
          jobs = jobs_behind w (unfinished w.done s.jobs) c;
          parent_pid = w.kernel.self;
          is_background = false;
          is_daemon = false;
          ignore_path = false;
          bad_redirect_pipe = false;
          last_pipe = 0;
        },
        launches false (c ∷ words r) (effects_behind w),
      )
run_line-launch w shell s c r v fresh pos b p f q =
    let js : List Job = unfinished w.done s.jobs in
    let s1 : Shell = record s { jobs = js; is_daemon = false } in
    run_line-words w shell s c r v p f q.own q.first q.last
    ∙ run_pipes-words w s1 (c ∷ words r) q.plain q.no_operator p.pipes.0 p.pipes.1
    ∙ launch-waits w shell s1 c (words r) (unfinished-IsJobSet w.done shell s.jobs v)
        (All-unfinished w.done (λ j. j.pid ≢ w.child) s.jobs fresh) pos b
    ∙ ap
        (λ x. some (
          record {
            jobs = jobs_behind w js c;
            parent_pid = w.kernel.self;
            is_background = false;
            is_daemon = false;
            ignore_path = false;
            bad_redirect_pipe = x;
            last_pipe = 0;
          },
          launches false (c ∷ words r) (effects_behind w),
        ))
        p.pipes.0
