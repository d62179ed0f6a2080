-- ===== src/MyShell/Daemon/Closed.antt =====
-- The daemon of `daemonizeProcess` has the descriptors that it checks for.
use network_programming_c.Prelude.{
  ℕ, zero, suc, ◌+◌, ◌≤◌, ◌<◌, ◌≡◌, refl, ap, ◌∙◌, ◌⊎◌, inl, inr, none, some, [], ◌∷◌, length,
  arith,
}
use network_programming_c.MyShell.Descriptors.{
  End, null_device, Table, at, lowest, alloc, close, dup, count_open,
}
use network_programming_c.MyShell.Descriptors.Laws.{
  at-put_end, at-alloc, at-dup, at_open-dup, count_open-alloc, count_open-dup, at_other-alloc,
  at_other-dup,
}
use network_programming_c.MyShell.Daemon.{close_all, daemon_table}

within : (a b : ℕ) → (a ≤ b) ⊎ (b < a)
within zero b = inl (omega arith)
within (suc a) zero = inr (omega arith)
within (suc a) (suc b) = elim (within a b) [
  | inl l ↦ inl (omega (arith, l))
  | inr l ↦ inr (omega (arith, l))
]

at-close : (t : Table) (i j : ℕ) → at t j ≡ none → at (close t i) j ≡ none
unfolding close
at-close [] zero zero h = refl
at-close [] zero (suc j) h = refl
at-close [] (suc i) zero h = refl
at-close [] (suc i) (suc j) h = at-close [] i j h
at-close (x ∷ t) zero zero h = refl
at-close (x ∷ t) zero (suc j) h = h
at-close (x ∷ t) (suc i) zero h = h
at-close (x ∷ t) (suc i) (suc j) h = at-close t i j h

at-close_closed : (n : ℕ) (t : Table) (j : ℕ) → at t j ≡ none → at (close_all n t) j ≡ none
unfolding close_all
at-close_closed zero t j h = at-close t 0 j h
at-close_closed (suc n) t j h = at-close_closed n (close t (suc n)) j (at-close t (suc n) j h)

at-close_all : (n : ℕ) (t : Table) (j : ℕ) → j ≤ n → at (close_all n t) j ≡ none
unfolding close_all close
at-close_all zero t zero h = at-put_end t 0 none
at-close_all zero t (suc j) h = absurd (omega arith)
at-close_all (suc n) t j h = elim (within j n) [
  | inl l ↦ at-close_all n (close t (suc n)) j l
  | inr l ↦
      let e : j ≡ suc n = omega arith in
      at-close_closed n (close t (suc n)) j (rw (e) (at-put_end t (suc n) none))
]

at-beyond : (t : Table) (j : ℕ) → length t ≤ j → at t j ≡ none
at-beyond [] j h = refl
at-beyond (x ∷ t) zero h = absurd (omega arith)
at-beyond (x ∷ t) (suc j) h = at-beyond t j (omega arith)

-- Everything is closed, when no descriptor is above the limit.
closed_all : (n : ℕ) (t : Table) (j : ℕ) → length t ≤ n + 1 → at (close_all n t) j ≡ none
closed_all n t j h = elim (within j n) [
  | inl l ↦ at-close_all n t j l
  | inr l ↦ at-close_closed n t j (at-beyond t j (omega arith))
]

count_open-none : (t : Table) → ((j : ℕ) → at t j ≡ none) → count_open t ≡ 0
count_open-none [] h = refl
count_open-none (none ∷ t) h = count_open-none t (λ j. h (suc j))
count_open-none (some x ∷ t) h = absurd (let e : some x ≡ none = h 0 in cc)

-- The lowest free descriptor, behind those that are open.
lowest-0 : (t : Table) → at t 0 ≡ none → lowest t ≡ 0
lowest-0 [] h = refl
lowest-0 (none ∷ t) h = refl
lowest-0 (some x ∷ t) h = cc

lowest-1 : (t : Table) (x : End) → at t 0 ≡ some x → at t 1 ≡ none → lowest t ≡ 1
lowest-1 [] x h k = cc
lowest-1 (none ∷ t) x h k = cc
lowest-1 (some y ∷ t) x h k = ap suc (lowest-0 t k)

lowest-2 :
    (t : Table) (x y : End) → at t 0 ≡ some x → at t 1 ≡ some y → at t 2 ≡ none → lowest t ≡ 2
lowest-2 [] x y h k l = cc
lowest-2 (none ∷ t) x y h k l = cc
lowest-2 (some z ∷ t) x y h k l = ap suc (lowest-1 t y k l)

-- A descriptor that is put into a table, in the place of the lowest that is free.
at_new-alloc : (t : Table) (x : End) (i : ℕ) → lowest t ≡ i → at (alloc t x) i ≡ some x
at_new-alloc t x i e = rw (e) at (at-alloc t x)

at_new-dup :
    (t : Table) (i j : ℕ) (x : End) → lowest t ≡ j → at t i ≡ some x → at (dup t i) j ≡ some x
at_new-dup t i j x e h = rw (e) at (at-dup t i x h)

-- The daemon's input, output and error output are the null device, and nothing else is open,
-- whatever the shell had open up to the limit: the descriptors are never unexpected.
pub daemon_table-null_device :
    (open_max : ℕ) (t : Table)
    → length t ≤ open_max + 1
    → (t1 : Table) × (daemon_table open_max t ≡ some t1)
      × (at t1 0 ≡ some null_device)
      × (at t1 1 ≡ some null_device)
      × (at t1 2 ≡ some null_device)
      × (count_open t1 ≡ 3)
unfolding daemon_table
daemon_table-null_device open_max t h =
    let x : End = null_device in
    let t0 : Table = close_all open_max t in
    let c : (j : ℕ) → at t0 j ≡ none = λ j. closed_all open_max t j h in
    let t1 : Table = alloc t0 x in
    let e0 : lowest t0 ≡ 0 = lowest-0 t0 (c 0) in
    let a0 : at t1 0 ≡ some x = at_new-alloc t0 x 0 e0 in
    let n1 : at t1 1 ≡ none = at_other-alloc t0 x 1 (λ e. omega (arith, e, e0)) ∙ c 1 in
    let n2 : at t1 2 ≡ none = at_other-alloc t0 x 2 (λ e. omega (arith, e, e0)) ∙ c 2 in
    let e1 : lowest t1 ≡ 1 = lowest-1 t1 x a0 n1 in
    let t2 : Table = dup t1 0 in
    let b0 : at t2 0 ≡ some x = at_open-dup t1 0 0 x a0 in
    let b1 : at t2 1 ≡ some x = at_new-dup t1 0 1 x e1 a0 in
    let m2 : at t2 2 ≡ none = at_other-dup t1 0 2 (λ e. omega (arith, e, e1)) ∙ n2 in
    let e2 : lowest t2 ≡ 2 = lowest-2 t2 x x b0 b1 m2 in
    (
      dup t2 0,
      rw (e0, e1, e2) refl,
      at_open-dup t2 0 0 x b0,
      at_open-dup t2 0 1 x b1,
      at_new-dup t2 0 2 x e2 b0,
      omega (
        arith,
        count_open-none t0 c,
        count_open-alloc t0 x,
        count_open-dup t1 0 x a0,
        count_open-dup t2 0 x b0,
      ),
    )
