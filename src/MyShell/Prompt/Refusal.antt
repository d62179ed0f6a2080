-- ===== src/MyShell/Prompt/Refusal.antt =====
-- MyShell/shell.c: the flag `badRedirectpipe` from a line to the next.
use network_programming_c.Prelude.{
  ℕ, ◌+◌, ◌*◌, ◌≡◌, refl, sym, ap, ◌∙◌, subst, inl, inr, Bool, true, false, ◌&&◌, ◌||◌, not, Option,
  none, some, Bool-cases, Ensures-weaken, List, [], ◌∷◌, length, get_or, leb, if◌then◌else◌, str_eq,
  codes, Ensures, bind-Ensures, if-Ensures, Ensures-some, ◌==◌,
}
use network_programming_c.MyShell.Jobs.{reap}
use network_programming_c.MyShell.Lines.{newline, cut_newline}
use network_programming_c.MyShell.Args.{
  Split, split_args, strings_fit, init_args, get_argument_length, is_empty,
}
use network_programming_c.MyShell.Commands.{exec_fg, exec_bg, insert_background_job, job_wait}
use network_programming_c.MyShell.Pipes.{
  Word, Filter, no_commands, filter_from, cut_command, is_separator, input_redirected, copy_command,
  output_redirection,
}
use network_programming_c.MyShell.Builtin.{
  Builtin, not_builtin, runs_here, needs_name, changes_directory, builtin,
}
use network_programming_c.MyShell.Redirect.{
  Redirection, no_redirection, before_pipe, to_file, to_queues, to_memory, redirection,
}
use network_programming_c.MyShell.Prompt.{
  Shell, World, Handled, Action, prompts, leaves, lists_jobs, does, commands, daemonizes, refuses,
  pipes, redirects, launches, launch, run_plain, pipe_type, run_pipes, without_last, last_word,
  dispatch, run_builtin, run_args, run_line,
}

-- No program is started, in the foreground, in the background or as a daemon.
abbrev pub StartsNothing : Action → Type 0
StartsNothing (pipes t cs into out) = ⊥
StartsNothing (redirects r) = ⊥
StartsNothing (launches b argv es) = ⊥
StartsNothing (daemonizes argv) = ⊥
StartsNothing prompts = Unit
StartsNothing leaves = Unit
StartsNothing lists_jobs = Unit
StartsNothing (does b) = Unit
StartsNothing (commands es) = Unit
StartsNothing refuses = Unit

abbrev is_refuses : Action → Bool
is_refuses refuses = true
is_refuses (pipes t cs into out) = false
is_refuses (redirects r) = false
is_refuses (launches b argv es) = false
is_refuses (daemonizes argv) = false
is_refuses prompts = false
is_refuses leaves = false
is_refuses lists_jobs = false
is_refuses (does b) = false
is_refuses (commands es) = false

-- The flag is set behind a line that is refused, and stays set. Where it was set before, no program
-- is started, but by a line for a daemon.
abbrev Outcome : Bool → Bool → Shell × Action → Type 0
Outcome daemon bad (s, a) =
    (is_refuses a ≡ true → s.bad_redirect_pipe ≡ true)
    × (bad ≡ true → s.bad_redirect_pipe ≡ true)
    × (bad ≡ true → daemon ≡ false → StartsNothing a)

true-ne-false : ¬ (true ≡ false)
true-ne-false e = cc

quiet :
    (daemon : Bool) (s : Shell) (a : Action)
    → is_refuses a ≡ false
    → StartsNothing a
    → Outcome daemon s.bad_redirect_pipe (s, a)
quiet daemon s a e n = ((λ h. absurd (true-ne-false (sym h ∙ e))), (λ b. b), (λ b d. n))

abbrev IsBad : Filter → Type 0
IsBad f = f.bad_redirect_pipe ≡ true

cut_command-IsBad :
    (args : List Word) (i : ℕ) (f : Filter) → IsBad f → Ensures IsBad (cut_command args i f)
unfolding cut_command
cut_command-IsBad args i f b =
    bind-Ensures IsBad (copy_command args (if f.last_pipe == 0 then 0 else f.last_pipe + 1) i) _
      (λ c e. b)

filter_from-IsBad :
    (args : List Word) (i : ℕ) (ws : List Word) (f : Filter)
    → IsBad f
    → Ensures IsBad (filter_from args i ws f)
unfolding filter_from
filter_from-IsBad args i [] f b = b
filter_from-IsBad args i (w ∷ ws) f b =
    if-Ensures IsBad (not (is_separator w)) _ _ (λ e. filter_from-IsBad args (i + 1) ws _ b)
      (λ e.
        if-Ensures IsBad (input_redirected args i && f.redirection_in_pipe) _ _ (λ p. refl)
          (λ p.
            let f1 : Filter = record f {
              pipearg_count = f.pipearg_count + 1;
              redirection_in_pipe = f.redirection_in_pipe || input_redirected args i;
            } in
            bind-Ensures IsBad (cut_command args i f1) _ (λ f2 q.
              filter_from-IsBad args (i + 1) ws f2
                (Ensures-some IsBad (cut_command args i f1) f2 (cut_command-IsBad args i f1 b) q))))

abbrev IsLoud : Shell × Action → Type 0
IsLoud (s, a) = is_refuses a ≡ false

run_plain-IsLoud : (w : World) (s : Shell) (argv : List Word) → Ensures IsLoud (run_plain w s argv)
unfolding run_plain launch
run_plain-IsLoud w s argv = bind-Ensures IsLoud (redirection w.usable argv s.last_pipe) _ found
  where
    found :
        (r : Redirection)
        → redirection w.usable argv s.last_pipe ≡ some r
        → Ensures IsLoud (elim r [
          | no_redirection ↦ launch w s argv
          | other ↦ some (record s { last_pipe = 0 }, redirects other)
        ])
    found no_redirection e =
        if-Ensures IsLoud s.is_background _ _
          (λ p.
            if-Ensures IsLoud (is_empty argv) _ _ (λ q. tt)
              (λ q.
                bind-Ensures IsLoud
                  (insert_background_job s.jobs (get_or argv 0 []) w.child w.reaped) _
                  (λ (js, es) k. refl)))
          (λ p.
            bind-Ensures IsLoud (job_wait w.kernel s.jobs (get_or argv 0 []) w.child w.status) _
              (λ (js, es) k. refl))
    found before_pipe e = refl
    found (to_file m cmd file) e = refl
    found (to_queues cmd rows) e = refl
    found (to_memory cmd rows) e = refl

-- Where the filter leaves no flag, none was set.
loud-Outcome :
    (daemon bad : Bool) (x : Shell × Action) → ¬ (bad ≡ true) → IsLoud x → Outcome daemon bad x
loud-Outcome daemon bad (s, a) n l =
    ((λ h. absurd (true-ne-false (sym h ∙ l))), (λ b. absurd (n b)), (λ b d. absurd (n b)))

run_pipes-Outcome :
    (w : World) (s : Shell) (argv : List Word)
    → Ensures (Outcome false s.bad_redirect_pipe) (run_pipes w s argv)
unfolding run_pipes
run_pipes-Outcome w s argv =
    let f0 : Filter = record no_commands {
      last_pipe = s.last_pipe;
      bad_redirect_pipe = s.bad_redirect_pipe;
    } in
    let P = Outcome false s.bad_redirect_pipe in
    bind-Ensures P (filter_from argv 0 argv f0) _ (λ f e.
      if-Ensures P f.bad_redirect_pipe _ _ (λ b. ((λ h. refl), (λ h. refl), (λ h d. tt)))
        (λ c.
          let n : ¬ (s.bad_redirect_pipe ≡ true) = λ b. true-ne-false (
            sym (
              Ensures-some IsBad (filter_from argv 0 argv f0) f (filter_from-IsBad argv 0 argv f0 b)
                e)
            ∙ c) in
          if-Ensures P (is_empty f.commands) _ _
            (λ z.
              Ensures-weaken IsLoud P (run_plain w (record s { last_pipe = f.last_pipe }) argv)
                (λ x l. loud-Outcome false s.bad_redirect_pipe x n l)
                (run_plain-IsLoud w (record s { last_pipe = f.last_pipe }) argv))
            (λ z. bind-Ensures P (output_redirection argv f) _ (λ (cs, out, freed) k.
              loud-Outcome false s.bad_redirect_pipe
                (record s { last_pipe = 0 }, pipes (pipe_type argv) cs f.redirection_in_pipe out) n
                refl))))

any_daemon :
    (d bad : Bool) (m : Handled) → Ensures (Outcome false bad) m → Ensures (Outcome d bad) m
any_daemon d bad m h =
    Ensures-weaken (Outcome false bad) (Outcome d bad) m
      (λ (s, a) (x, y, z). (x, y, λ b e. z b refl)) h

dispatch-Outcome :
    (w : World) (s : Shell) (argv : List Word)
    → Ensures (Outcome s.is_daemon s.bad_redirect_pipe) (dispatch w s argv)
unfolding dispatch
dispatch-Outcome w s argv =
    let d : Bool = s.is_daemon in
    let bad : Bool = s.bad_redirect_pipe in
    let P = Outcome d bad in
    if-Ensures P (str_eq (last_word argv) (codes "&")) _ _
      (λ e.
        any_daemon d bad (run_pipes w (record s { is_background = true }) (without_last argv))
          (run_pipes-Outcome w (record s { is_background = true }) (without_last argv)))
      (λ e.
        if-Ensures P (str_eq (get_or argv 0 []) (codes "fg")) _ _
          (λ p. bind-Ensures P (exec_fg w.kernel false s.jobs argv) _ (λ (flag, js, es) q.
            quiet d (record s { jobs = js; is_background = false }) (commands es) refl tt))
          (λ p.
            if-Ensures P (str_eq (get_or argv 0 []) (codes "bg")) _ _
              (λ q. bind-Ensures P (exec_bg w.kernel s.parent_pid s.jobs argv) _ (λ (js, es) r.
                quiet d (record s { jobs = js; is_background = false }) (commands es) refl tt))
              (λ q.
                if-Ensures P s.is_daemon _ _
                  (λ r. (
                    (λ h. absurd (true-ne-false (sym h))),
                    (λ b. b),
                    (λ b e. absurd (true-ne-false (sym r ∙ e))),
                  ))
                  (λ r. any_daemon d bad (run_pipes w s argv) (run_pipes-Outcome w s argv)))))

run_builtin-Outcome :
    (w : World) (s : Shell) (argv : List Word) (c : Builtin)
    → Ensures (Outcome s.is_daemon s.bad_redirect_pipe) (run_builtin w s argv c)
unfolding run_builtin
run_builtin-Outcome w s argv not_builtin = dispatch-Outcome w s argv
run_builtin-Outcome w s argv (runs_here argv') =
    dispatch-Outcome w (record s { ignore_path = true }) argv'
run_builtin-Outcome w s argv needs_name = quiet s.is_daemon s (does needs_name) refl tt
run_builtin-Outcome w s argv (changes_directory dir) =
    quiet s.is_daemon s (does (changes_directory dir)) refl tt

init_args-split :
    (usable : ℕ → ℕ) (d : Bool) (buffer : List ℕ) (t : Split)
    → init_args usable d buffer ≡ some t
    → t.is_daemon ≡ (split_args d buffer).is_daemon
unfolding init_args
init_args-split usable d buffer t e = elim (Bool-cases (strings_fit usable 0 buffer)) [
  | inl f ↦ let g : some (split_args d buffer) ≡ some t = rw (f) at e in ap is_daemon_of (sym g)
  | inr f ↦ let g : none ≡ some t = rw (f) at e in cc
]
  where
    is_daemon_of : Option Split → Bool
    is_daemon_of none = false
    is_daemon_of (some x) = x.is_daemon

-- Whether a line is for a daemon: the flag is set, or the first word is `daemonize` and another
-- follows.
abbrev pub for_daemon : Shell → List ℕ → Bool
for_daemon s line = (split_args s.is_daemon (cut_newline line)).is_daemon

run_args-Outcome :
    (w : World) (s : Shell) (n : ℕ) (buffer : List ℕ)
    → Ensures
        (Outcome (split_args s.is_daemon buffer).is_daemon s.bad_redirect_pipe)
        (run_args w s n buffer)
unfolding run_args
run_args-Outcome w s n buffer =
    let bad : Bool = s.bad_redirect_pipe in
    let P = Outcome (split_args s.is_daemon buffer).is_daemon bad in
    bind-Ensures P (init_args w.usable s.is_daemon buffer) _ (λ t e.
      if-Ensures P (leb (length t.filled) n) _ _
        (λ l. bind-Ensures P (builtin w.home t.filled) _ (λ c k.
          subst
            (λ d.
              Ensures (Outcome d bad)
                (run_builtin w (record s { is_daemon = t.is_daemon }) t.filled c))
            (init_args-split w.usable s.is_daemon buffer t e)
            (run_builtin-Outcome w (record s { is_daemon = t.is_daemon }) t.filled c)))
        (λ l. tt))

run_line-Outcome :
    (w : World) (s : Shell) (line : List ℕ)
    → Ensures (Outcome (for_daemon s line) s.bad_redirect_pipe) (run_line w s line)
unfolding run_line
run_line-Outcome w s line =
    let d : Bool = for_daemon s line in
    let P = Outcome d s.bad_redirect_pipe in
    if-Ensures P (str_eq line (newline ∷ [])) _ _ (λ p. quiet d s prompts refl tt)
      (λ p.
        bind-Ensures P
          (reap w.done (length s.jobs * length s.jobs + length s.jobs + 1) false 0 s.jobs) _
          (λ (flag, js) q.
            if-Ensures P (str_eq (cut_newline line) (codes "exit")) _ _
              (λ r. quiet d (record s { jobs = js }) leaves refl tt)
              (λ r.
                if-Ensures P (str_eq (cut_newline line) (codes "printlist")) _ _
                  (λ t. quiet d (record s { jobs = js }) lists_jobs refl tt)
                  (λ t.
                    run_args-Outcome w (record s { jobs = js }) (get_argument_length line)
                      (cut_newline line)))))

-- The shell after any number of lines, with anything that the system says.
pub data Later (s : Shell) : Shell → Type 0 where
  here : Later s s
  next :
      {t u : Shell} (w : World) (line : List ℕ) (a : Action)
      → Later s t
      → run_line w t line ≡ some (u, a)
      → Later s u

Later-bad : {s t : Shell} → s.bad_redirect_pipe ≡ true → Later s t → t.bad_redirect_pipe ≡ true
Later-bad b here = b
Later-bad b (next {t} {u} w line a l e) =
    let P = Outcome (for_daemon t line) t.bad_redirect_pipe in
    (Ensures-some P (run_line w t line) (u, a) (run_line-Outcome w t line) e).1 (Later-bad b l)

-- Once a line was refused for its redirections, the flag is set, and stays set behind any lines.
-- From then on a line that is not for `daemonize`, and for which no flag of an earlier `daemonize`
-- is left, starts no program, not in the background and not as a daemon either: it is a command of
-- the shell itself, or refused as well.
pub run_line-IsRefused :
    (w w' : World) (s s1 s2 s3 : Shell) (line line' : List ℕ) (a : Action)
    → run_line w s line ≡ some (s1, refuses)
    → Later s1 s2
    → for_daemon s2 line' ≡ false
    → run_line w' s2 line' ≡ some (s3, a)
    → (s3.bad_redirect_pipe ≡ true) × StartsNothing a
run_line-IsRefused w w' s s1 s2 s3 line line' a r l d e =
    let P = Outcome (for_daemon s line) s.bad_redirect_pipe in
    let Q = Outcome (for_daemon s2 line') s2.bad_redirect_pipe in
    let first = Ensures-some P (run_line w s line) (s1, refuses) (run_line-Outcome w s line) r in
    let bad : s2.bad_redirect_pipe ≡ true = Later-bad (first.0 refl) l in
    let last = Ensures-some Q (run_line w' s2 line') (s3, a) (run_line-Outcome w' s2 line') e in
    (last.1 bad, last.2 bad d)
