-- ===== src/MyShell/Args/Words.antt =====
-- MyShell/shell.c: lines put together from words, and `initArgs` on them.
use network_programming_c.Prelude.{
  ℕ, zero, suc, ◌+◌, ◌<◌, ◌≡◌, ◌≢◌, refl, ◌∙◌, arith, length, ltb, Bool, true, false, ◌&&◌, not,
  List, [], ◌∷◌, ◌++◌, append-nil, append_assoc, ◌==◌, if◌then◌else◌, All, replicate, str_eq, codes,
  Bool-cases, subst, inl, inr,
}
use network_programming_c.MyShell.Args.{
  space, peek, is_empty, Split, end_argument, init_step, init_from, split_args, strings_fit,
}
use network_programming_c.MyShell.Pipes.{all_fit}

abbrev pub NoSpace : List ℕ → Type 0
NoSpace = All (λ c. (c == space) ≡ false)

-- The first word, and then pairs of a number of spaces, less one, and a word that is not empty.
abbrev pub line : List ℕ → List (ℕ × List ℕ) → List ℕ
line w [] = w
line w ((k, v) ∷ r) = w ++ (replicate (suc k) space ++ line v r)

abbrev pub IsWord : ℕ × List ℕ → Type 0
IsWord (k, v) = NoSpace v × (v ≢ [])

abbrev pub words : List (ℕ × List ℕ) → List (List ℕ)
words [] = []
words ((k, v) ∷ r) = v ∷ words r

init_step-word :
    (t : Split) (c d : ℕ)
    → (c == space) ≡ false
    → init_step t c d ≡ (record t { current = t.current ++ c ∷ [] })
unfolding init_step
init_step-word t c d h = rw (h) refl

init_from-word :
    (t : Split) (w s : List ℕ)
    → NoSpace w
    → init_from t (w ++ s) ≡ init_from (record t { current = t.current ++ w }) s
unfolding init_from
init_from-word t [] s h = rw (append-nil t.current) refl
init_from-word t (c ∷ w) s h =
    rw
      (
        init_step-word t c (peek (w ++ s)) h.0,
        init_from,
        init_from-word (record t { current = t.current ++ c ∷ [] }) w s h.1,
        append_assoc t.current (c ∷ []) w,
      )
      refl

init_from-last :
    (t : Split) (w : List ℕ)
    → NoSpace w
    → init_from t w ≡ init_from (record t { current = t.current ++ w }) []
init_from-last t w h =
    subst (λ s. init_from t s ≡ init_from (record t { current = t.current ++ w }) []) (append-nil w)
      (init_from-word t w [] h)

peek-line :
    (v : List ℕ) (r : List (ℕ × List ℕ)) (k : ℕ)
    → IsWord (k, v)
    → (peek (line v r) == space) ≡ false
peek-line [] r k h = absurd (h.1 refl)
peek-line (c ∷ v) [] k h = h.0.0
peek-line (c ∷ v) ((j, u) ∷ r) k h = h.0.0

init_from-spaces :
    (t : Split) (k : ℕ) (s : List ℕ)
    → (peek s == space) ≡ false
    → init_from t (replicate (suc k) space ++ s) ≡ init_from (end_argument t) s
unfolding init_from init_step
init_from-spaces t zero s h = rw (h) refl
init_from-spaces t (suc k) s h = init_from-spaces t k s h

end_argument_other :
    (b : Bool) (f : List (List ℕ)) (w : List ℕ)
    → (is_empty f && (not b && str_eq w (codes "daemonize"))) ≡ false
    → end_argument (record { is_daemon = b; filled = f; current = w })
      ≡ record { is_daemon = b; filled = f ++ w ∷ []; current = [] }
unfolding end_argument
end_argument_other b f w e = rw (e) refl

init_from-pair :
    (t : Split) (w v : List ℕ) (k : ℕ) (r : List (ℕ × List ℕ))
    → NoSpace w
    → IsWord (k, v)
    → init_from t (line w ((k, v) ∷ r))
      ≡ init_from (end_argument (record t { current = t.current ++ w })) (line v r)
init_from-pair t w v k r h a =
    init_from-word t w (replicate (suc k) space ++ line v r) h
    ∙ init_from-spaces (record t { current = t.current ++ w }) k (line v r) (peek-line v r k a)

never_first : (f : List (List ℕ)) (x : List ℕ) (c : Bool) → (is_empty (f ++ x ∷ []) && c) ≡ false
never_first [] x c = refl
never_first (y ∷ f) x c = refl

-- From an argument that is not a `daemonize` at the first place.
pub init_from-line :
    (b : Bool) (f : List (List ℕ)) (w : List ℕ) (r : List (ℕ × List ℕ))
    → (is_empty f && (not b && str_eq w (codes "daemonize"))) ≡ false
    → NoSpace w
    → All IsWord r
    → init_from (record { is_daemon = b; filled = f; current = [] }) (line w r)
      ≡ record { is_daemon = b; filled = f ++ w ∷ words r; current = [] }
unfolding init_from
init_from-line b f w [] e h a =
    init_from-last (record { is_daemon = b; filled = f; current = [] }) w h
init_from-line b f w ((k, v) ∷ r) e h a =
    rw
      (
        init_from-pair (record { is_daemon = b; filled = f; current = [] }) w v k r h a.0,
        end_argument_other b f w e,
        init_from-line b (f ++ w ∷ []) v r (never_first f w (not b && str_eq v (codes "daemonize")))
            a.0.0 a.1,
        append_assoc f (w ∷ []) (v ∷ words r),
      )
      refl

-- A line of words with spaces between them, and none at its ends, is split into these words. A
-- `daemonize` at the first place is left out, and it sets the flag.
pub split_args-words :
    (w : List ℕ) (r : List (ℕ × List ℕ))
    → NoSpace w
    → All IsWord r
    → split_args false (line w r) ≡ (
        if is_empty r
        then record { is_daemon = false; filled = w ∷ []; current = [] }
        else (if str_eq w (codes "daemonize")
            then record { is_daemon = true; filled = words r; current = [] }
            else record { is_daemon = false; filled = w ∷ words r; current = [] }))
unfolding split_args end_argument
split_args-words w [] h a =
    init_from-last (record { is_daemon = false; filled = []; current = [] }) w h
split_args-words w ((k, v) ∷ r) h a =
    let t : Split = record { is_daemon = false; filled = []; current = [] } in
    elim (Bool-cases (str_eq w (codes "daemonize"))) [
      | inl e ↦
          rw
            (
              init_from-pair t w v k r h a.0,
              end_argument,
              e,
              init_from-line true [] v r refl a.0.0 a.1,
            )
            refl
      | inr e ↦
          rw
            (
              init_from-pair t w v k r h a.0,
              end_argument,
              e,
              init_from-line false (w ∷ []) v r refl a.0.0 a.1,
            )
            refl
    ]

-- Every word, and its zero, fits its string.
strings_fit-word :
    (usable : ℕ → ℕ) (j : ℕ) (w s : List ℕ)
    → NoSpace w
    → j + length w < usable 1
    → strings_fit usable j (w ++ s) ≡ strings_fit usable (j + length w) s
unfolding strings_fit
strings_fit-word usable j [] s a h = let e : j + 0 ≡ j = omega arith in rw e refl
strings_fit-word usable j (c ∷ w) s a h =
    let t : ltb j (usable 1) ≡ true = ground arith in
    let e : j + suc (length w) ≡ j + 1 + length w = omega arith in
    rw (a.0, t, e) (strings_fit-word usable (j + 1) w s a.1 (omega arith))

strings_fit-spaces :
    (usable : ℕ → ℕ) (j k : ℕ) (s : List ℕ)
    → (peek s == space) ≡ false
    → j < usable 1
    → strings_fit usable j (replicate (suc k) space ++ s) ≡ strings_fit usable 0 s
unfolding strings_fit
strings_fit-spaces usable j zero s p h =
    let t : ltb j (usable 1) ≡ true = ground arith in rw (p, t) refl
strings_fit-spaces usable j (suc k) s p h = strings_fit-spaces usable j k s p h

pub strings_fit-line :
    (usable : ℕ → ℕ) (w : List ℕ) (r : List (ℕ × List ℕ))
    → NoSpace w
    → All IsWord r
    → all_fit usable (w ∷ words r) ≡ true
    → strings_fit usable 0 (line w r) ≡ true
unfolding strings_fit
strings_fit-line usable w [] a b f =
    let t : length w < usable 1 = ground arith in
    let u : ltb (0 + length w) (usable 1) ≡ true = ground arith in
    subst (λ s. strings_fit usable 0 s ≡ true) (append-nil w)
      (strings_fit-word usable 0 w [] a (omega arith) ∙ u)
strings_fit-line usable w ((k, v) ∷ r) a b f =
    let t : length w < usable 1 = ground arith in
    let g : all_fit usable (v ∷ words r) ≡ true = ground arith in
    strings_fit-word usable 0 w (replicate (suc k) space ++ line v r) a (omega arith)
    ∙ strings_fit-spaces usable (0 + length w) k (line v r) (peek-line v r k b.0) (omega arith)
    ∙ strings_fit-line usable v r b.0.0 b.1 g
