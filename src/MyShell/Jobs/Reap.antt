-- ===== src/MyShell/Jobs/Reap.antt =====
-- MyShell/shell.c: the loop of `main` that takes finished background jobs off the list.
use network_programming_c.Prelude.{
  ℕ, zero, suc, ◌+◌, ◌*◌, ◌-◌, ◌≤◌, ◌<◌, ◌≡◌, ◌≢◌, refl, sym, ap, subst, ◌∙◌, inl, inr, Bool, true,
  false, none, some, List, [], ◌∷◌, ◌==◌, if◌then◌else◌, arith, Bool-cases, Option-cases, All,
  length, get_elem?, take,
}
use network_programming_c.MyShell.Jobs.{Job, negative, finished, remove_behind, reap}
use network_programming_c.MyShell.Jobs.Laws.{
  Absent, Distinct, Positive, IsJobSet, remove_job_behind, Absent-remove_behind,
  Distinct-remove_behind, Positive-remove_behind,
}

mul_less : (a b n : ℕ) → a < b → a * n + n ≤ b * n
mul_less a b n h = grind arith

Positive-get_elem? :
    (k : ℕ) (js : List Job) (j : Job)
    → Positive js
    → get_elem? js k ≡ some j
    → negative j.pid ≡ false
Positive-get_elem? k [] j a e = cc
Positive-get_elem? zero (x ∷ js) j a e =
    let q : x ≡ j = cc in subst (λ t. negative t.pid ≡ false) q (a.0)
Positive-get_elem? (suc k) (x ∷ js) j a e = Positive-get_elem? k js j a.1 e

module _ (done : ℕ → Bool) where
  -- The jobs that are not finished.
  unfoldable pub unfinished : List Job → List Job
  unfinished [] = []
  unfinished (j ∷ js) = let rest = unfinished js in if finished done j then rest else j ∷ rest

  abbrev AllGoing : List Job → Type 0
  AllGoing = All (λ j. finished done j ≡ false)

  unfinished_all : (js : List Job) → AllGoing js → unfinished js ≡ js
  unfolding unfinished
  unfinished_all [] a = refl
  unfinished_all (j ∷ js) a = rw (a.0, unfinished_all js a.1)

  length-remove_behind : (pid : ℕ) (js : List Job) → length (remove_behind pid js) ≤ length js
  unfolding remove_behind
  length-remove_behind pid [] = omega arith
  length-remove_behind pid (j ∷ js) = ground (arith, length-remove_behind pid js)

  remove-Absent : (pid : ℕ) (js : List Job) → Absent pid js → remove_behind pid js ≡ js
  unfolding remove_behind
  remove-Absent pid [] a = refl
  remove-Absent pid (j ∷ js) a = ground (arith, remove-Absent pid js a.1)

  unfinished-remove_head :
      (x : Job) (js : List Job)
      → Absent x.pid js
      → finished done x ≡ true
      → (unfinished (remove_behind x.pid (x ∷ js)) ≡ unfinished (x ∷ js))
        × (length (remove_behind x.pid (x ∷ js)) < length (x ∷ js))
  unfolding unfinished remove_behind
  unfinished-remove_head x js a f =
      let same : (x.pid == x.pid) ≡ true = ground arith in
      rw (same, remove-Absent x.pid js a, f) (refl, omega arith)

  Absent-get_elem? :
      (p k : ℕ) (js : List Job) (j : Job) → Absent p js → get_elem? js k ≡ some j → j.pid ≢ p
  Absent-get_elem? p k [] j a e = cc
  Absent-get_elem? p zero (x ∷ js) j a e = ground (arith, a.0)
  Absent-get_elem? p (suc k) (x ∷ js) j a e = Absent-get_elem? p k js j a.1 e

  -- The job at the index, if it is finished, is one of those to be taken off.
  unfinished-remove :
      (js : List Job) (k : ℕ) (j : Job)
      → Distinct js
      → get_elem? js k ≡ some j
      → finished done j ≡ true
      → (unfinished (remove_behind j.pid js) ≡ unfinished js)
        × (length (remove_behind j.pid js) < length js)
  unfolding unfinished remove_behind
  unfinished-remove [] k j d e f = cc
  unfinished-remove (x ∷ js) zero j d e f =
      let q : x ≡ j = cc in
      subst
        (λ t.
          (unfinished (remove_behind t.pid (x ∷ js)) ≡ unfinished (x ∷ js))
          × (length (remove_behind t.pid (x ∷ js)) < length (x ∷ js)))
        q (unfinished-remove_head x js d.0 (rw q f))
  unfinished-remove (x ∷ js) (suc k) j d e f =
      ground (arith, unfinished-remove js k j d.1 e f, Absent-get_elem? x.pid k js j d.0 e)

  -- Everything before the index is unfinished.
  abbrev Clear : ℕ → List Job → Type 0
  Clear k js = AllGoing (take k js)

  Clear-suc :
      (k : ℕ) (js : List Job) (j : Job)
      → Clear k js
      → get_elem? js k ≡ some j
      → finished done j ≡ false
      → Clear (suc k) js
  Clear-suc k [] j c e f = cc
  Clear-suc zero (x ∷ js) j c e f = ((let q : x ≡ j = cc in rw q f), tt)
  Clear-suc (suc k) (x ∷ js) j c e f = (c.0, Clear-suc k js j c.1 e f)

  Clear-all : (k : ℕ) (js : List Job) → Clear k js → get_elem? js k ≡ none → AllGoing js
  Clear-all k [] c e = tt
  Clear-all zero (x ∷ js) c e = cc
  Clear-all (suc k) (x ∷ js) c e = (c.0, Clear-all k js c.1 e)

  get_elem?_bound : (k : ℕ) (js : List Job) (j : Job) → get_elem? js k ≡ some j → k < length js
  get_elem?_bound k [] j e = cc
  get_elem?_bound zero (x ∷ js) j e = omega arith
  get_elem?_bound (suc k) (x ∷ js) j e = omega (arith, get_elem?_bound k js j e)

  reap_from :
      (fuel k bound : ℕ) (h : Job) (rest : List Job)
      → finished done h ≡ false
      → Distinct (h ∷ rest)
      → Positive (h ∷ rest)
      → Clear k (h ∷ rest)
      → length rest < bound
      → length rest * bound + (suc (length rest) - k) < fuel
      → reap done fuel false k (h ∷ rest) ≡ some (false, h ∷ unfinished rest)
  unfolding reap unfinished
  reap_from zero k bound h rest f d p c b m = absurd (omega arith)
  reap_from (suc fuel) zero bound h rest f d p c b m =
      rw (f, reap) (reap_from fuel 1 bound h rest f d p (f, tt) b (omega arith))
  reap_from (suc fuel) (suc k) bound h rest f d p c b m = elim (Option-cases (get_elem? rest k)) [
    | inl e ↦
        rw (e, reap)
          (ap (λ l. some (false, h ∷ l)) (sym (unfinished_all rest (Clear-all k rest c.1 e))))
    | inr (j, e) ↦ elim (Bool-cases (finished done j)) [
      | inl g ↦
          let ne : h.pid ≢ j.pid = ground (arith, Absent-get_elem? h.pid k rest j d.0 e) in
          let (same, less) = unfinished-remove rest k j d.1 e g in
          rw (e, reap, g, remove_job_behind j.pid h rest ne (Positive-get_elem? k rest j p.1 e))
            (reap_from fuel 1 bound h (remove_behind j.pid rest) f
                (Absent-remove_behind h.pid j.pid rest d.0, Distinct-remove_behind j.pid rest d.1)
                (p.0, Positive-remove_behind j.pid rest p.1) (f, tt) (omega (arith, less))
                (omega (
                  arith,
                  less,
                  mul_less (length (remove_behind j.pid rest)) (length rest) bound less,
                ))
              ∙ ap (λ l. some (false, h ∷ l)) same)
      | inr g ↦
          rw (e, reap, g)
            (reap_from fuel (suc (suc k)) bound h rest f d p (c.0, Clear-suc k rest j c.1 e g) b
              (omega (arith, get_elem?_bound k rest j e)))
    ]
  ]

  unfinished_head :
      (h : Job) (rest : List Job)
      → finished done h ≡ false
      → unfinished (h ∷ rest) ≡ h ∷ unfinished rest
  unfolding unfinished
  unfinished_head h rest e = rw e

  -- With a list that begins with the shell itself, in the foreground, and distinct pids that are
  -- not negative, the loop over the jobs ends, and leaves the unfinished jobs in their order. With
  -- `n` jobs, `n * n + n` passes and one more are enough.
  pub reap_lem :
      (shell : ℕ) (js : List Job)
      → IsJobSet shell js
      → reap done (length js * length js + length js + 1) false 0 js ≡ some (false, unfinished js)
  reap_lem shell js v =
      let n = length v.rest in
      let going : finished done v.head ≡ false = rw (v.front) refl in
      rw (v.list, unfinished_head v.head v.rest going)
        (reap_from (suc n * suc n + suc n + 1) 0 (suc n) v.head v.rest going
          (rw v.list at v.distinct) (rw v.list at v.positive) tt (omega arith) (grind arith))

  pub All-unfinished : (P : Job → Type 0) (js : List Job) → All P js → All P (unfinished js)
  unfolding unfinished
  All-unfinished P [] a = tt
  All-unfinished P (j ∷ js) a = ground (arith, All-unfinished P js a.1)

  Distinct-unfinished : (js : List Job) → Distinct js → Distinct (unfinished js)
  unfolding unfinished
  Distinct-unfinished [] d = tt
  Distinct-unfinished (j ∷ js) d =
      ground (arith, All-unfinished (λ i. i.pid ≢ j.pid) js d.0, Distinct-unfinished js d.1)

  pub unfinished-IsJobSet :
      (shell : ℕ) (js : List Job) → IsJobSet shell js → IsJobSet shell (unfinished js)
  unfinished-IsJobSet shell js v =
      let going : finished done v.head ≡ false = rw (v.front) refl in
      record {
        head = v.head;
        rest = unfinished v.rest;
        list = rw v.list (unfinished_head v.head v.rest going);
        own = v.own;
        front = v.front;
        distinct = Distinct-unfinished js v.distinct;
        positive = All-unfinished (λ j. negative j.pid ≡ false) js v.positive;
      }
