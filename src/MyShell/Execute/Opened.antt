-- ===== src/MyShell/Execute/Opened.antt =====
-- The descriptors of the shell and of a child while a command of `executePipe` runs.
use network_programming_c.Prelude.{
  ℕ, ◌<◌, ◌≡◌, ◌≢◌, refl, sym, ◌∙◌, Bool, true, false, none, some, arith, ◌==◌,
}
use network_programming_c.MyShell.Descriptors.{
  End, read_end, write_end, Table, at, lowest, alloc, close, dup2, writes_to,
}
use network_programming_c.MyShell.Descriptors.Laws.{
  at-put_end, at-alloc_open, open_other, at_other-close, at-dup2, at_other-dup2, at-alloc,
  writes_to-alloc, writes_to-close, writes_to-dup2, writes_to-close-alloc,
}
use network_programming_c.MyShell.Execute.{
  Out, no_redirect, cannot_open, to_fd, child_output, child_table,
}

module _ (t : Table) (n : ℕ) where
  -- The table behind `pipe(p)`, and `p[0]` and `p[1]`.
  abbrev pub opened : Table
  opened = alloc (alloc t (read_end n)) (write_end n)

  abbrev pub p0 : ℕ
  p0 = lowest t

  abbrev pub p1 : ℕ
  p1 = lowest (alloc t (read_end n))

  -- The table behind `close(p[1])`.
  abbrev pub closed : Table
  closed = close opened p1

  pub opened-keeps : (i : ℕ) (x : End) → at t i ≡ some x → at opened i ≡ some x
  opened-keeps i x h =
      at-alloc_open (alloc t (read_end n)) (write_end n) i x (at-alloc_open t (read_end n) i x h)

  pub other_p0 : (i : ℕ) (x : End) → at t i ≡ some x → i ≢ p0
  other_p0 i x h = open_other t i x h

  pub other_p1 : (i : ℕ) (x : End) → at t i ≡ some x → i ≢ p1
  other_p1 i x h = open_other (alloc t (read_end n)) i x (at-alloc_open t (read_end n) i x h)

  pub p0_other : p0 ≢ p1
  p0_other = open_other (alloc t (read_end n)) p0 (read_end n) (at-alloc t (read_end n))

  pub at-opened-p0 : at opened p0 ≡ some (read_end n)
  at-opened-p0 =
      at-alloc_open (alloc t (read_end n)) (write_end n) p0 (read_end n) (at-alloc t (read_end n))

  pub at-opened-p1 : at opened p1 ≡ some (write_end n)
  at-opened-p1 = at-alloc (alloc t (read_end n)) (write_end n)

  pub closed-keeps : (i : ℕ) (x : End) → at t i ≡ some x → at closed i ≡ some x
  closed-keeps i x h = at_other-close opened p1 i (other_p1 i x h) ∙ opened-keeps i x h

  pub at-closed-p0 : at closed p0 ≡ some (read_end n)
  at-closed-p0 = at_other-close opened p1 p0 p0_other ∙ at-opened-p0

  -- The shell has no end of a pipe that can be written to.
  pub writes_to-closed : (k : ℕ) → writes_to t k ≡ false → writes_to closed k ≡ false
  writes_to-closed k h =
      writes_to-close-alloc (alloc t (read_end n)) (write_end n) k
        (writes_to-alloc t (read_end n) k h refl)

  pub writes_to-opened : (k : ℕ) → k < n → writes_to t k ≡ false → writes_to opened k ≡ false
  writes_to-opened k l h =
      let e : (k == n) ≡ false = ground arith in
      writes_to-alloc (alloc t (read_end n)) (write_end n) k
        (writes_to-alloc t (read_end n) k h refl) e

-- Where the last child's output goes: the shell's own, or the file's.
abbrev pub Target : Table → Out → End → Type 0
Target t no_redirect e = at t 1 ≡ some e
Target t cannot_open e = at t 1 ≡ some e
Target t (to_fd fd) e = (at t fd ≡ some e) × (fd ≢ 0) × (fd ≢ 1)

-- The file is not the input of the child.
abbrev pub Apart : Out → ℕ → Type 0
Apart no_redirect i = Unit
Apart cannot_open i = Unit
Apart (to_fd fd) i = fd ≢ i

at_0-child_output :
    (t : Table) (p : ℕ) (more : Bool) (out : Out)
    → Apart out 0
    → at (child_output t p more out) 0 ≡ at t 0
unfolding child_output
at_0-child_output t p true out h = at_other-dup2 t p 1 0 (λ e. omega (arith, e))
at_0-child_output t p false no_redirect h = refl
at_0-child_output t p false cannot_open h = refl
at_0-child_output t p false (to_fd fd) h =
    at_other-close (dup2 t fd 1) fd 0 (λ e. h (sym e))
    ∙ at_other-dup2 t fd 1 0 (λ e. omega (arith, e))

writes_to-child_output :
    (t : Table) (p : ℕ) (more : Bool) (out : Out) (k : ℕ)
    → writes_to t k ≡ false
    → writes_to (child_output t p more out) k ≡ false
unfolding child_output
writes_to-child_output t p true out k h = writes_to-dup2 t p 1 k h
writes_to-child_output t p false no_redirect k h = h
writes_to-child_output t p false cannot_open k h = h
writes_to-child_output t p false (to_fd fd) k h =
    writes_to-close (dup2 t fd 1) fd k (writes_to-dup2 t fd 1 k h)

-- A child writes to no pipe that the shell does not write to.
pub writes_to-child_table :
    (t : Table) (fd_in p q : ℕ) (more : Bool) (out : Out) (k : ℕ)
    → writes_to t k ≡ false
    → writes_to (child_table t fd_in p q more out) k ≡ false
unfolding child_table
writes_to-child_table t fd_in p q more out k h =
    let t1 : Table = close (dup2 t fd_in 0) fd_in in
    writes_to-close (child_output t1 q more out) p k (
      writes_to-child_output t1 q more out k
        (writes_to-close (dup2 t fd_in 0) fd_in k (writes_to-dup2 t fd_in 0 k h)))

-- The input of a child: none for the first, whose descriptor 0 is closed.
pub at_0-child_first :
    (t : Table) (p q : ℕ) (more : Bool) (out : Out)
    → p ≢ 0
    → Apart out 0
    → at (child_table t 0 p q more out) 0 ≡ none
unfolding child_table close
at_0-child_first t p q more out h a =
    let t1 : Table = close (dup2 t 0 0) 0 in
    at_other-close (child_output t1 q more out) p 0 (λ e. h (sym e))
    ∙ at_0-child_output t1 q more out a
    ∙ at-put_end (dup2 t 0 0) 0 none

pub at_0-child_next :
    (t : Table) (fd_in p q : ℕ) (more : Bool) (out : Out) (x : End)
    → p ≢ 0
    → Apart out 0
    → fd_in ≢ 0
    → at t fd_in ≡ some x
    → at (child_table t fd_in p q more out) 0 ≡ some x
unfolding child_table
at_0-child_next t fd_in p q more out x h a f e =
    let t1 : Table = close (dup2 t fd_in 0) fd_in in
    at_other-close (child_output t1 q more out) p 0 (λ e. h (sym e))
    ∙ at_0-child_output t1 q more out a
    ∙ at_other-close (dup2 t fd_in 0) fd_in 0 (λ e. f (sym e))
    ∙ at-dup2 t fd_in 0 x e

-- The output of a child: the pipe, or for the last one the target.
at_1-input :
    (t : Table) (fd_in i : ℕ) (x : End)
    → i ≢ 0
    → i ≢ fd_in
    → at t i ≡ some x
    → at (close (dup2 t fd_in 0) fd_in) i ≡ some x
at_1-input t fd_in i x h k e =
    at_other-close (dup2 t fd_in 0) fd_in i k ∙ at_other-dup2 t fd_in 0 i h ∙ e

pub at_1-child_more :
    (t : Table) (fd_in p q : ℕ) (out : Out) (x : End)
    → p ≢ 1
    → q ≢ 0
    → q ≢ fd_in
    → at t q ≡ some x
    → at (child_table t fd_in p q true out) 1 ≡ some x
unfolding child_table child_output
at_1-child_more t fd_in p q out x h k l e =
    let t1 : Table = close (dup2 t fd_in 0) fd_in in
    at_other-close (dup2 t1 q 1) p 1 (λ e. h (sym e))
    ∙ at-dup2 t1 q 1 x (at_1-input t fd_in q x k l e)

pub at_1-child_last :
    (t : Table) (fd_in p q : ℕ) (out : Out) (x : End)
    → p ≢ 1
    → fd_in ≢ 1
    → Apart out fd_in
    → Target t out x
    → at (child_table t fd_in p q false out) 1 ≡ some x
unfolding child_table child_output
at_1-child_last t fd_in p q no_redirect x h f a e =
    at_other-close (close (dup2 t fd_in 0) fd_in) p 1 (λ e. h (sym e))
    ∙ at_1-input t fd_in 1 x (λ e. omega (arith, e)) (λ e. f (sym e)) e
at_1-child_last t fd_in p q cannot_open x h f a e =
    at_other-close (close (dup2 t fd_in 0) fd_in) p 1 (λ e. h (sym e))
    ∙ at_1-input t fd_in 1 x (λ e. omega (arith, e)) (λ e. f (sym e)) e
at_1-child_last t fd_in p q (to_fd fd) x h f a e =
    let t1 : Table = close (dup2 t fd_in 0) fd_in in
    at_other-close (close (dup2 t1 fd 1) fd) p 1 (λ e. h (sym e))
    ∙ at_other-close (dup2 t1 fd 1) fd 1 (λ d. e.2 (sym d))
    ∙ at-dup2 t1 fd 1 x (at_1-input t fd_in fd x e.1 a e.0)
