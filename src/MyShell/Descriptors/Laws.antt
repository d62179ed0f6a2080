-- ===== src/MyShell/Descriptors/Laws.antt =====
-- What the calls on descriptors do to the table: nothing to the other descriptors.
use network_programming_c.Prelude.{
  ℕ, zero, suc, ◌≡◌, ◌≢◌, refl, ap, ◌∙◌, Bool, true, false, ◌||◌, Option, none, some, [], ◌∷◌,
  arith,
}
use network_programming_c.MyShell.Descriptors.{
  End, Table, at, put_end, copy_to, lowest, alloc, close, dup2, dup, is_write_end, writes_to,
  count_open,
}

pub at-put_end : (t : Table) (i : ℕ) (v : Option End) → at (put_end t i v) i ≡ v
at-put_end [] zero v = refl
at-put_end [] (suc i) v = at-put_end [] i v
at-put_end (x ∷ t) zero v = refl
at-put_end (x ∷ t) (suc i) v = at-put_end t i v

pub at_other-put_end :
    (t : Table) (i : ℕ) (v : Option End) (j : ℕ) → j ≢ i → at (put_end t i v) j ≡ at t j
at_other-put_end [] zero v zero h = absurd (h refl)
at_other-put_end [] zero v (suc j) h = refl
at_other-put_end [] (suc i) v zero h = refl
at_other-put_end [] (suc i) v (suc j) h = at_other-put_end [] i v j (λ e. h (ap suc e))
at_other-put_end (x ∷ t) zero v zero h = absurd (h refl)
at_other-put_end (x ∷ t) zero v (suc j) h = refl
at_other-put_end (x ∷ t) (suc i) v zero h = refl
at_other-put_end (x ∷ t) (suc i) v (suc j) h = at_other-put_end t i v j (λ e. h (ap suc e))

-- The lowest free descriptor is free.
pub at-lowest : (t : Table) → at t (lowest t) ≡ none
at-lowest [] = refl
at-lowest (none ∷ t) = refl
at-lowest (some x ∷ t) = at-lowest t

-- A descriptor that is open is not the new one.
pub open_other : (t : Table) (i : ℕ) (e : End) → at t i ≡ some e → i ≢ lowest t
open_other [] zero e h p = cc
open_other [] (suc i) e h p = cc
open_other (none ∷ t) zero e h p = cc
open_other (none ∷ t) (suc i) e h p = absurd (omega (arith, p))
open_other (some x ∷ t) zero e h p = absurd (omega (arith, p))
open_other (some x ∷ t) (suc i) e h p = open_other t i e h (omega (arith, p))

pub at-alloc_open :
    (t : Table) (e : End) (i : ℕ) (x : End) → at t i ≡ some x → at (alloc t e) i ≡ some x
unfolding alloc
at-alloc_open t e i x h = at_other-put_end t (lowest t) (some e) i (open_other t i x h) ∙ h

-- A disjunction that is false.
or-false : (a b : Bool) → (a || b) ≡ false → (a ≡ false) × (b ≡ false)
or-false true b h = absurd (let k : true ≡ false = h in cc)
or-false false b h = (refl, h)

pub at-alloc : (t : Table) (e : End) → at (alloc t e) (lowest t) ≡ some e
unfolding alloc
at-alloc t e = at-put_end t (lowest t) (some e)

-- No more can be written to a pipe after a change than before, but through the end that is put_end.
pub writes_to-put_end :
    (t : Table) (i : ℕ) (v : Option End) (n : ℕ)
    → writes_to t n ≡ false
    → is_write_end n v ≡ false
    → writes_to (put_end t i v) n ≡ false
writes_to-put_end [] zero v n h k = rw (k)
writes_to-put_end [] (suc i) v n h k = writes_to-put_end [] i v n h k
writes_to-put_end (x ∷ t) zero v n h k = rw (k) (or-false (is_write_end n x) (writes_to t n) h).1
writes_to-put_end (x ∷ t) (suc i) v n h k =
    let b = or-false (is_write_end n x) (writes_to t n) h in
    rw (b.0) (writes_to-put_end t i v n b.1 k)

pub writes_to-close :
    (t : Table) (i n : ℕ) → writes_to t n ≡ false → writes_to (close t i) n ≡ false
unfolding close
writes_to-close t i n h = writes_to-put_end t i none n h refl

pub writes_to-alloc :
    (t : Table) (e : End) (n : ℕ)
    → writes_to t n ≡ false
    → is_write_end n (some e) ≡ false
    → writes_to (alloc t e) n ≡ false
unfolding alloc
writes_to-alloc t e n h k = writes_to-put_end t (lowest t) (some e) n h k

-- Closing a new descriptor leaves what was open before; the count of the open ones is the same.
put_end-put_end :
    (t : Table) (i : ℕ) (v : Option End) (w : Option End)
    → put_end (put_end t i v) i w ≡ put_end t i w
put_end-put_end [] zero v w = refl
put_end-put_end [] (suc i) v w = ap (λ l. none ∷ l) (put_end-put_end [] i v w)
put_end-put_end (x ∷ t) zero v w = refl
put_end-put_end (x ∷ t) (suc i) v w = ap (λ l. x ∷ l) (put_end-put_end t i v w)

pub count_open-put_free :
    (t : Table) (i : ℕ) (e : End)
    → at t i ≡ none
    → count_open (put_end t i (some e)) ≡ suc (count_open t)
count_open-put_free [] zero e h = refl
count_open-put_free [] (suc i) e h = count_open-put_free [] i e h
count_open-put_free (none ∷ t) zero e h = refl
count_open-put_free (some x ∷ t) zero e h = cc
count_open-put_free (none ∷ t) (suc i) e h = count_open-put_free t i e h
count_open-put_free (some x ∷ t) (suc i) e h = ap suc (count_open-put_free t i e h)

pub count_open-put_end-none :
    (t : Table) (i : ℕ) → at t i ≡ none → count_open (put_end t i none) ≡ count_open t
count_open-put_end-none [] zero h = refl
count_open-put_end-none [] (suc i) h = count_open-put_end-none [] i h
count_open-put_end-none (none ∷ t) zero h = refl
count_open-put_end-none (some x ∷ t) zero h = cc
count_open-put_end-none (none ∷ t) (suc i) h = count_open-put_end-none t i h
count_open-put_end-none (some x ∷ t) (suc i) h = ap suc (count_open-put_end-none t i h)

pub count_open-alloc : (t : Table) (e : End) → count_open (alloc t e) ≡ suc (count_open t)
unfolding alloc
count_open-alloc t e = count_open-put_free t (lowest t) e (at-lowest t)

-- A new descriptor that is closed again is not counted.
pub count_open-close-alloc :
    (t : Table) (e : End) → count_open (close (alloc t e) (lowest t)) ≡ count_open t
unfolding alloc close
count_open-close-alloc t e =
    ap count_open (put_end-put_end t (lowest t) (some e) none)
    ∙ count_open-put_end-none t (lowest t) (at-lowest t)

-- A pipe's write end that is closed again is no way to write to any pipe.
pub writes_to-close-alloc :
    (t : Table) (e : End) (n : ℕ)
    → writes_to t n ≡ false
    → writes_to (close (alloc t e) (lowest t)) n ≡ false
unfolding alloc close
writes_to-close-alloc t e n h =
    rw (put_end-put_end t (lowest t) (some e) none) (writes_to-put_end t (lowest t) none n h refl)

-- `dup2` gives the descriptor what an open one stands for.
pub at-dup2 : (t : Table) (i j : ℕ) (e : End) → at t i ≡ some e → at (dup2 t i j) j ≡ some e
unfolding dup2
at-dup2 t i j e h = rw (h) (at-put_end t j (some e))

at_other-copy_to :
    (t : Table) (j : ℕ) (v : Option End) (k : ℕ) → k ≢ j → at (copy_to t j v) k ≡ at t k
at_other-copy_to t j none k h = refl
at_other-copy_to t j (some e) k h = at_other-put_end t j (some e) k h

pub at_other-dup2 : (t : Table) (i j k : ℕ) → k ≢ j → at (dup2 t i j) k ≡ at t k
unfolding dup2
at_other-dup2 t i j k h = at_other-copy_to t j (at t i) k h

pub at_other-close : (t : Table) (i j : ℕ) → j ≢ i → at (close t i) j ≡ at t j
unfolding close
at_other-close t i j h = at_other-put_end t i none j h

pub at_open-dup : (t : Table) (i j : ℕ) (x : End) → at t j ≡ some x → at (dup t i) j ≡ some x
unfolding dup
at_open-dup t i j x h = at_other-copy_to t (lowest t) (at t i) j (open_other t j x h) ∙ h

-- The new descriptor stands for what the old one does.
pub at-dup : (t : Table) (i : ℕ) (x : End) → at t i ≡ some x → at (dup t i) (lowest t) ≡ some x
unfolding dup
at-dup t i x h = rw (h) (at-put_end t (lowest t) (some x))

pub count_open-dup :
    (t : Table) (i : ℕ) (x : End) → at t i ≡ some x → count_open (dup t i) ≡ suc (count_open t)
unfolding dup
count_open-dup t i x h = rw (h) (count_open-put_free t (lowest t) x (at-lowest t))

-- Each end in the table that writes to the pipe is seen.
is_write_end-at : (t : Table) (i n : ℕ) → writes_to t n ≡ false → is_write_end n (at t i) ≡ false
is_write_end-at [] i n h = refl
is_write_end-at (x ∷ t) zero n h = (or-false (is_write_end n x) (writes_to t n) h).0
is_write_end-at (x ∷ t) (suc i) n h =
    is_write_end-at t i n (or-false (is_write_end n x) (writes_to t n) h).1

writes_to-copy_to :
    (t : Table) (j : ℕ) (v : Option End) (n : ℕ)
    → writes_to t n ≡ false
    → is_write_end n v ≡ false
    → writes_to (copy_to t j v) n ≡ false
writes_to-copy_to t j none n h k = h
writes_to-copy_to t j (some e) n h k = writes_to-put_end t j (some e) n h k

pub writes_to-dup2 :
    (t : Table) (i j n : ℕ) → writes_to t n ≡ false → writes_to (dup2 t i j) n ≡ false
unfolding dup2
writes_to-dup2 t i j n h = writes_to-copy_to t j (at t i) n h (is_write_end-at t i n h)

pub writes_to-dup : (t : Table) (i n : ℕ) → writes_to t n ≡ false → writes_to (dup t i) n ≡ false
unfolding dup
writes_to-dup t i n h = writes_to-copy_to t (lowest t) (at t i) n h (is_write_end-at t i n h)

pub at_other-alloc : (t : Table) (e : End) (i : ℕ) → i ≢ lowest t → at (alloc t e) i ≡ at t i
unfolding alloc
at_other-alloc t e i h = at_other-put_end t (lowest t) (some e) i h

pub at_other-dup : (t : Table) (i j : ℕ) → j ≢ lowest t → at (dup t i) j ≡ at t j
unfolding dup
at_other-dup t i j h = at_other-copy_to t (lowest t) (at t i) j h
