-- ===== src/MyShell/Execute/Loop.antt =====
-- The loop of `executePipe` over all commands, against the composition of what they do.
use network_programming_c.Prelude.{
  ℕ, suc, ◌+◌, ◌≡◌, refl, ◌∙◌, Bool, true, false, ◌&&◌, Option, none, some, ◌>>=◌, List, [], ◌∷◌,
  ◌++◌, length, leb, arith, Yields, bind-Yields, Yields-weaken, Yields-result, Bool-cases, inl, inr,
}
use network_programming_c.MyShell.Pipes.{Word}
use network_programming_c.MyShell.Descriptors.{
  End, terminal, read_end, write_end, input_file, output_file, null_device, Table, at, alloc, close,
  writes_to, count_open,
}
use network_programming_c.MyShell.Descriptors.Laws.{count_open-alloc, count_open-close-alloc}
use network_programming_c.MyShell.Execute.{
  Content, Machine, System, Out, write_out, with_pipe, pipe_loop, is_more,
}
use network_programming_c.MyShell.Execute.Opened.{p1, closed, closed-keeps, writes_to-closed}
use network_programming_c.MyShell.Execute.Step.{
  Ready, pipe_step-last, pipe_step-fits, pipe_step-full, after, after-Ready, q0,
}

-- Each command reads what the command before it writes.
abbrev pub pipeline : Machine → Option Content → List (List Word) → Content
pipeline m input [] = []
pipeline m input (c ∷ []) = m.runs c input
pipeline m input (c ∷ d ∷ cs) = pipeline m (some (m.runs c input)) (d ∷ cs)

-- What each command but the last writes fits into a pipe.
abbrev pub fits : Machine → Option Content → List (List Word) → Bool
fits m input [] = true
fits m input (c ∷ []) = true
fits m input (c ∷ d ∷ cs) =
    leb (length (m.runs c input)) m.capacity && fits m (some (m.runs c input)) (d ∷ cs)

-- The output is on the screen, or was written to the file, and nothing else was.
abbrev pub Wrote : System → End → Content → System → Type 0
Wrote s terminal o s1 = (s1.screen ≡ s.screen ++ o) × (s1.written ≡ s.written)
Wrote s (output_file f a) o s1 = (s1.screen ≡ s.screen) × (s1.written ≡ s.written ++ (f, a, o) ∷ [])
Wrote s (read_end n) o s1 = ⊥
Wrote s (write_end n) o s1 = ⊥
Wrote s (input_file f) o s1 = ⊥
Wrote s null_device o s1 = ⊥

abbrev pub CanWrite : End → Type 0
CanWrite terminal = Unit
CanWrite (output_file f a) = Unit
CanWrite (read_end n) = ⊥
CanWrite (write_end n) = ⊥
CanWrite (input_file f) = ⊥
CanWrite null_device = ⊥

-- The state behind the loop: the descriptors of before stand for the same, and `n` more are open.
pub record Done (s : System) (e : End) (o : Content) (n : ℕ) (s1 : System) : Type 0 where
  pub wrote : Wrote s e o s1
  pub keeps : (i : ℕ) (x : End) → at s.table i ≡ some x → at s1.table i ≡ some x
  pub no_writers : (k : ℕ) → writes_to s.table k ≡ false → writes_to s1.table k ≡ false
  pub opens : count_open s1.table ≡ count_open s.table + n

count_open-closed : (t : Table) (n : ℕ) → count_open (closed t n) ≡ suc (count_open t)
count_open-closed t n =
    count_open-close-alloc (alloc t (read_end n)) (write_end n) ∙ count_open-alloc t (read_end n)

last_step :
    (m : Machine) (s : System) (e : End) (o : Content)
    → CanWrite e
    → Yields (Done s e o 1) (
        write_out m (with_pipe s) (some e) o >>= λ s1.
        some (record s1 { table = close s1.table (p1 s.table (length s.pipes)) }))
unfolding write_out with_pipe
last_step m s terminal o h = record {
  wrote = (refl, refl);
  keeps = closed-keeps s.table (length s.pipes);
  no_writers = writes_to-closed s.table (length s.pipes);
  opens = omega (arith, count_open-closed s.table (length s.pipes));
}
last_step m s (output_file f a) o h = record {
  wrote = (refl, refl);
  keeps = closed-keeps s.table (length s.pipes);
  no_writers = writes_to-closed s.table (length s.pipes);
  opens = omega (arith, count_open-closed s.table (length s.pipes));
}
last_step m s (read_end n) o h = absurd h
last_step m s (write_end n) o h = absurd h
last_step m s (input_file f) o h = absurd h
last_step m s null_device o h = absurd h

Wrote-after :
    (s s1 s2 : System) (e : End) (o : Content)
    → s1.screen ≡ s.screen
    → s1.written ≡ s.written
    → Wrote s1 e o s2
    → Wrote s e o s2
Wrote-after s s1 s2 terminal o c w h = (rw (← c) h.0, h.1 ∙ w)
Wrote-after s s1 s2 (output_file f a) o c w h = (h.0 ∙ c, rw (← w) h.1)
Wrote-after s s1 s2 (read_end n) o c w h = absurd h
Wrote-after s s1 s2 (write_end n) o c w h = absurd h
Wrote-after s s1 s2 (input_file f) o c w h = absurd h
Wrote-after s s1 s2 null_device o c w h = absurd h

Done-after :
    (s s1 s2 : System) (e : End) (o : Content) (n : ℕ)
    → s1.table ≡ closed s.table (length s.pipes)
    → s1.screen ≡ s.screen
    → s1.written ≡ s.written
    → Done s1 e o n s2
    → Done s e o (suc n) s2
Done-after s s1 s2 e o n t c w d = record {
  wrote = Wrote-after s s1 s2 e o c w d.wrote;
  keeps = λ i x h. d.keeps i x (rw (t) (closed-keeps s.table (length s.pipes) i x h));
  no_writers = λ k h. d.no_writers k (rw (t) (writes_to-closed s.table (length s.pipes) k h));
  opens =
      (let e : count_open s1.table ≡ suc (count_open s.table) =
          rw (t) (count_open-closed s.table (length s.pipes)) in
        omega (arith, d.opens, e));
}

and-true : (a b : Bool) → (a && b) ≡ true → (a ≡ true) × (b ≡ true)
and-true true b h = (refl, h)
and-true false b h = absurd (let k : false ≡ true = h in cc)

-- The loop writes what the pipeline does, when it fits into the pipes.
pub pipe_loop-pipeline :
    (m : Machine) (s : System) (fd_in : ℕ) (input : Option Content) (out : Out) (e : End)
    (c : List Word) (cs : List (List Word))
    → Ready s fd_in input out e
    → CanWrite e
    → fits m input (c ∷ cs) ≡ true
    → Yields
        (Done s e (pipeline m input (c ∷ cs)) (length (c ∷ cs)))
        (pipe_loop m s fd_in out (c ∷ cs))
unfolding pipe_loop
pipe_loop-pipeline m s fd_in input out e c [] r h f =
    let p = last_step m s e (m.runs c input) h in
    rw (pipe_step-last m s fd_in input out e r c)
      (bind-Yields (Done s e (m.runs c input) 1) (Done s e (m.runs c input) 1) _ _ p (λ a d. d))
pipe_loop-pipeline m s fd_in input out e c (d ∷ cs) r h f =
    let a =
      and-true (leb (length (m.runs c input)) m.capacity) (fits m (some (m.runs c input)) (d ∷ cs))
        f in
    let o : Content = m.runs c input in
    let s1 : System = after m s fd_in input out e r o in
    let n =
      pipe_loop-pipeline m s1 (q0 m s fd_in input out e r) (some o) out e d cs
        (after-Ready m s fd_in input out e r o) h a.1 in
    rw (pipe_step-fits m s fd_in input out e r c a.0) (
      Yields-weaken (Done s1 e (pipeline m (some o) (d ∷ cs)) (length (d ∷ cs)))
        (Done s e (pipeline m (some o) (d ∷ cs)) (suc (length (d ∷ cs)))) _
        (λ s2. Done-after s s1 s2 e (pipeline m (some o) (d ∷ cs)) (length (d ∷ cs)) refl refl refl)
        n)

rest-false : (a b : Bool) → a ≡ true → (a && b) ≡ false → b ≡ false
rest-false true b t h = h
rest-false false b t h = absurd (let k : false ≡ true = t in cc)

-- The loop waits for ever when some command writes more than a pipe holds.
pub pipe_loop-full :
    (m : Machine) (s : System) (fd_in : ℕ) (input : Option Content) (out : Out) (e : End)
    (cs : List (List Word))
    → Ready s fd_in input out e
    → fits m input cs ≡ false
    → pipe_loop m s fd_in out cs ≡ none
unfolding pipe_loop
pipe_loop-full m s fd_in input out e [] r f = cc
pipe_loop-full m s fd_in input out e (c ∷ []) r f = cc
pipe_loop-full m s fd_in input out e (c ∷ d ∷ cs) r f =
    elim (Bool-cases (leb (length (m.runs c input)) m.capacity)) [
      | inl t ↦
          let o : Content = m.runs c input in
          let k : fits m (some o) (d ∷ cs) ≡ false = rest-false _ _ t f in
          rw (pipe_step-fits m s fd_in input out e r c t) (
            pipe_loop-full m (after m s fd_in input out e r o) (q0 m s fd_in input out e r) (some o)
              out e (d ∷ cs) (after-Ready m s fd_in input out e r o) k)
      | inr t ↦ rw (pipe_step-full m s fd_in input out e r c t) refl
    ]

-- There is a state behind the loop.
pub pipe_loop-Done :
    (m : Machine) (s : System) (fd_in : ℕ) (input : Option Content) (out : Out) (e : End)
    (cs : List (List Word))
    → Ready s fd_in input out e
    → CanWrite e
    → is_more cs ≡ true
    → fits m input cs ≡ true
    → (s1 : System) × (pipe_loop m s fd_in out cs ≡ some s1)
      × Done s e (pipeline m input cs) (length cs) s1
pipe_loop-Done m s fd_in input out e [] r h k f = cc
pipe_loop-Done m s fd_in input out e (c ∷ cs) r h k f =
    Yields-result (Done s e (pipeline m input (c ∷ cs)) (length (c ∷ cs)))
      (pipe_loop m s fd_in out (c ∷ cs)) (pipe_loop-pipeline m s fd_in input out e c cs r h f)
