-- ===== src/MyShell/Redirect/Outputs.antt =====
-- MyShell/shell.c: lines with a redirection or with `##` or `SS`, put together from commands, and
-- `redirection_with_pipes_and_ipc` on them.
use network_programming_c.Prelude.{
  take-append, ℕ, suc, ◌+◌, ◌*◌, ◌≤◌, ◌<◌, ◌≡◌, refl, ◌∙◌, true, false, ◌&&◌, some, List, [], ◌∷◌,
  ◌++◌, length, length-append, append_assoc, append-nil, All, ltb, str_eq, str_eq_refl, codes,
  arith,
}
use network_programming_c.MyShell.Pipes.{Word, fits_string, all_fit}
use network_programming_c.MyShell.Redirect.{
  to_queues, to_memory, output_rows, output_size, outputs_from, at_operator, outputs, int_size,
  array_fits, is_operator, redirection_from, redirection,
}

-- Words that are no operators.
abbrev pub NoOperator : List Word → Type 0
NoOperator = All (λ w. is_operator w ≡ false)

pub redirection_from-words :
    (usable : ℕ → ℕ) (args : List Word) (i : ℕ) (c rest : List Word)
    → NoOperator c
    → redirection_from usable args 0 i (c ++ rest)
      ≡ redirection_from usable args 0 (i + length c) rest
unfolding redirection_from
redirection_from-words usable args i [] rest a = let e : i + 0 ≡ i = omega arith in rw (e) refl
redirection_from-words usable args i (w ∷ c) rest a =
    let e : i + suc (length c) ≡ i + 1 + length c = omega arith in
    rw (a.0, redirection_from-words usable args (i + 1) c rest a.1, e) refl

-- The commands after the first, each with a comma before it.
abbrev pub commas : List (List Word) → List Word
commas [] = []
commas (c ∷ cs) = codes "," ∷ (c ++ commas cs)

-- A command that fits into a row, with the NULL behind it, and has no comma of its own; each word
-- fits its string.
abbrev pub IsOutput : (ℕ → ℕ) → List Word → Type 0
IsOutput usable c =
    All (λ w. (str_eq w (codes ",") ≡ false) × (fits_string usable w ≡ true)) c
    × (0 < length c)
    × (length c < output_size)

outputs_from-words :
    (usable : ℕ → ℕ) (rows : List (List Word)) (current c rest : List Word)
    → length rows < output_rows
    → length current + length c ≤ output_size
    → int_size * (length rows + 1) ≤ usable int_size
    → All (λ w. (str_eq w (codes ",") ≡ false) × (fits_string usable w ≡ true)) c
    → outputs_from usable rows current (c ++ rest) ≡ outputs_from usable rows (current ++ c) rest
unfolding outputs_from
outputs_from-words usable rows current [] rest h k m a = rw (append-nil current) refl
outputs_from-words usable rows current (w ∷ c) rest h k m a =
    let room : (ltb (length rows) output_rows && ltb (length current) output_size) ≡ true =
      ground arith in
    let l = length-append current (w ∷ []) in
    let n : array_fits usable (length rows) ≡ true = ground arith in
    rw
      (
        room,
        a.0.0,
        a.0.1,
        n,
        outputs_from-words usable rows (current ++ w ∷ []) c rest h (omega (arith, l)) m a.1,
        append_assoc current (w ∷ []) c,
      )
      refl

outputs_from-commas :
    (usable : ℕ → ℕ) (rows : List (List Word)) (c : List Word) (cs : List (List Word))
    → length rows + length cs + 1 < output_rows
    → int_size * (length rows + length cs + 1) ≤ usable int_size
    → IsOutput usable c
    → All (IsOutput usable) cs
    → outputs_from usable rows [] (c ++ commas cs) ≡ some (rows ++ c ∷ cs)
unfolding outputs_from
outputs_from-commas usable rows c [] h m a b =
    let room : (ltb 0 (length c)
          && (ltb (length c) output_size && ltb (length rows + 1) output_rows))
        ≡ true =
      ground (arith, a.1, a.2) in
    let e =
      outputs_from-words usable rows [] c [] (omega arith) (omega (arith, a.2)) (omega arith) a.0 in
    rw (e, room) refl
outputs_from-commas usable rows c (d ∷ cs) h m a b =
    let room : (ltb (length rows) output_rows && ltb (length c) output_size) ≡ true =
      ground (arith, a.2) in
    let l = length-append rows (c ∷ []) in
    let n : array_fits usable (length rows + 1) ≡ true = ground arith in
    rw
      (
        outputs_from-words usable rows [] c (codes "," ∷ (d ++ commas cs)) (omega arith)
            (omega (arith, a.2)) (omega arith) a.0,
        room,
        str_eq_refl (codes ","),
        n,
        outputs_from-commas usable (rows ++ c ∷ []) d cs (omega (arith, l)) (omega (arith, l)) b.0
            b.1,
        append_assoc rows (c ∷ []) (d ∷ cs),
      )
      refl

redirection-operator :
    (usable : ℕ → ℕ) (cmd : List Word) (op : Word) (rest : List Word)
    → NoOperator cmd
    → is_operator op ≡ true
    → redirection usable (cmd ++ op ∷ rest) 0
      ≡ at_operator usable (cmd ++ op ∷ rest) 0 (length cmd) op rest
unfolding redirection redirection_from
redirection-operator usable cmd op rest a o =
    let e : 0 + length cmd ≡ length cmd = omega arith in
    rw (redirection_from-words usable (cmd ++ op ∷ rest) 0 cmd (op ∷ rest) a, e, o) refl

-- A command, then `##` or `SS`, and at most 19 commands of one to four words with commas between
-- them: the line is cut into the command and these commands, for the queue or the shared memory.
-- The first command has no operator, and the words of the others are no commas. Each word fits,
-- with a zero behind it, a string that `malloc` was asked one byte for, and the block that it was
-- asked one `int` for has room for as many as there are commands behind the operator.
pub redirection-commas :
    (usable : ℕ → ℕ) (cmd c : List Word) (cs : List (List Word))
    → NoOperator cmd
    → all_fit usable cmd ≡ true
    → length cs + 1 < output_rows
    → int_size * (length cs + 1) ≤ usable int_size
    → IsOutput usable c
    → All (IsOutput usable) cs
    → (redirection usable (cmd ++ codes "##" ∷ (c ++ commas cs)) 0 ≡ some (to_queues cmd (c ∷ cs)))
      × (redirection usable (cmd ++ codes "SS" ∷ (c ++ commas cs)) 0
          ≡ some (to_memory cmd (c ∷ cs)))
unfolding at_operator outputs is_operator str_eq
redirection-commas usable cmd c cs a f h m b d =
    let rest : List Word = c ++ commas cs in
    let e = outputs_from-commas usable [] c cs (omega arith) (omega arith) b d in
    (
      redirection-operator usable cmd (codes "##") rest a refl
          ∙ rw (take-append cmd (codes "##" ∷ rest), f, e) refl,
      redirection-operator usable cmd (codes "SS") rest a refl
          ∙ rw (take-append cmd (codes "SS" ∷ rest), f, e) refl,
    )
