-- ===== src/MyShell/Tests.antt =====
-- Runs of the shell's functions, and the theorems at concrete inputs.
use network_programming_c.Prelude.{
  ℕ, ◌≡◌, ◌==◌, refl, Bool, false, some, ◌>>=◌, List, [], ◌∷◌, ◌++◌, codes, str_eq, ◌≢◌, arith, All,
  length,
}
use network_programming_c.MyShell.Jobs.{Job, suspended, background, foreground, reap}
use network_programming_c.MyShell.Jobs.Laws.{IsJobSet}
use network_programming_c.MyShell.Jobs.Reap.{unfinished, reap_lem}
use network_programming_c.MyShell.Pipes.{
  pipe_filter, output_redirection, output_redirected, is_separator,
}
use network_programming_c.MyShell.Pipes.Split.{join, parts, IsPlain, IsPart, pipe_filter-join}

abbrev shell_job : Job
shell_job = record { pid = 10; name = codes "myshell"; status = foreground; gid = 10 }

abbrev editor : Job
editor = record { pid = 11; name = codes "vi"; status = suspended; gid = 10 }

abbrev build : Job
build = record { pid = 12; name = codes "make"; status = background; gid = 12 }

abbrev three_jobs : List Job
three_jobs = shell_job ∷ editor ∷ build ∷ []

three_jobs-IsJobSet : IsJobSet 10 three_jobs
three_jobs-IsJobSet = record {
  head = shell_job;
  rest = editor ∷ build ∷ [];
  list = refl;
  own = refl;
  front = refl;
  distinct = ground arith;
  positive = ground arith;
}

abbrev make_done : ℕ → Bool
make_done pid = pid == 12

reap_lem_example :
    reap make_done 13 false 0 three_jobs ≡ some (false, unfinished make_done three_jobs)
reap_lem_example = reap_lem make_done 10 three_jobs three_jobs-IsJobSet

not_empty : {A : Type 0} (x : A) (xs : List A) → x ∷ xs ≢ []
not_empty x xs e = cc

abbrev rest_of_pipe : List (List ℕ × List (List ℕ))
rest_of_pipe = (codes "|", codes "wc" ∷ codes "-l" ∷ []) ∷ []

abbrev pipe_line : List (List ℕ)
pipe_line = (codes "ls" ∷ []) ++ join ((codes "|", codes "sort" ∷ []) ∷ rest_of_pipe)

ls-IsPlain : All IsPlain (codes "ls" ∷ [])
unfolding is_separator str_eq
ls-IsPlain = ((refl, refl), tt)

pipe_line-IsPart : All IsPart ((codes "|", codes "sort" ∷ []) ∷ rest_of_pipe)
unfolding is_separator str_eq
pipe_line-IsPart = (
  (refl, (((refl, refl), tt), omega arith)),
  ((refl, (((refl, refl), ((refl, refl), tt)), omega arith)), tt),
)

pipe_filter-join_example :
    (pipe_filter pipe_line >>= λ s. output_redirection pipe_line s)
    ≡ some (
      (codes "ls" ∷ []) ∷ (codes "sort" ∷ []) ∷ parts rest_of_pipe,
      output_redirected pipe_line (length pipe_line),
      length pipe_line,
    )
pipe_filter-join_example =
    pipe_filter-join (codes "ls" ∷ []) (codes "|") (codes "sort" ∷ []) rest_of_pipe
      (not_empty (codes "ls") []) ls-IsPlain (omega arith) pipe_line-IsPart
