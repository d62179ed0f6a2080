-- ===== src/MyShell/Pipes/Split.antt =====
-- MyShell/shell.c: lines with pipes, put together from commands, and `pipe_filter` on them.
use network_programming_c.Prelude.{
  ℕ, zero, suc, ◌+◌, ◌-◌, ◌<◌, ◌≡◌, ◌≢◌, refl, sym, ap, ◌∙◌, true, false, some, ◌>>=◌, List, [],
  ◌∷◌, ◌++◌, length, get_or, take, drop, map, ◌==◌, ltb, if◌then◌else◌, str_eq, str_eq→eq,
  Bool-cases, inl, inr, codes, arith, length-append, append_assoc, append-nil, subst, All,
}
use network_programming_c.MyShell.Pipes.{
  Word, is_separator, Filter, no_commands, row_size, copy_command, cut_command, input_redirected,
  filter_from, pipe_filter, output_redirected, output_redirection,
}

-- A word that is neither a separator nor the sign of an input redirection.
abbrev pub IsPlain : Word → Type 0
IsPlain w = (is_separator w ≡ false) × (str_eq w (codes "<") ≡ false)

-- The commands after the first, each with the separator before it.
abbrev pub join : List (Word × List Word) → List Word
join [] = []
join ((sep, c) ∷ r) = sep ∷ (c ++ join r)

take-segment :
    {A : Type 0} (pre w t : List A) → take (length w) (drop (length pre) (pre ++ (w ++ t))) ≡ w
take-segment (x ∷ pre) w t = take-segment pre w t
take-segment [] [] [] = refl
take-segment [] [] (x ∷ t) = refl
take-segment [] (x ∷ w) t = ap (λ l. x ∷ l) (take-segment [] w t)

drop-segment : {A : Type 0} (pre w : List A) → drop (length pre) (pre ++ w) ≡ w
drop-segment [] w = refl
drop-segment (x ∷ pre) w = drop-segment pre w

-- Words that are no separators are only counted.
pub filter_from-words :
    (args : List Word) (i : ℕ) (c rest : List Word) (s : Filter)
    → All IsPlain c
    → filter_from args i (c ++ rest) s
      ≡ filter_from args
          (i + length c)
          rest
          (record s { pipearg_count = s.pipearg_count + length c })
unfolding filter_from
filter_from-words args i [] rest s a =
    let e : (m : ℕ) → m + 0 ≡ m = λ m. omega arith in rw (e i, e s.pipearg_count) refl
filter_from-words args i (w ∷ c) rest s a =
    let e : (m : ℕ) → m + suc (length c) ≡ m + 1 + length c = λ m. omega arith in
    rw
      (
        a.0.0,
        filter_from-words args (i + 1) c rest (record s { pipearg_count = s.pipearg_count + 1 })
            a.1,
        e i,
        e s.pipearg_count,
      )
      refl

-- The state behind the separator at `i`, when `c` is the command before it.
abbrev behind : Filter → List Word → ℕ → Filter
behind s c i = record s {
  commands = s.commands ++ c ∷ [];
  pipearg_count = s.pipearg_count + 1;
  last_pipe = i;
}

filter_from-separator :
    (args : List Word) (i : ℕ) (sep : Word) (rest c : List Word) (s : Filter)
    → is_separator sep ≡ true
    → input_redirected args i ≡ false
    → s.redirection_in_pipe ≡ false
    → copy_command args (if s.last_pipe == 0 then 0 else s.last_pipe + 1) i ≡ some c
    → filter_from args i (sep ∷ rest) s ≡ filter_from args (i + 1) rest (behind s c i)
unfolding filter_from cut_command
filter_from-separator args i sep rest c s p q e k = rw (p, q, e, k) refl

copy_segment :
    (pre c t : List Word)
    → length c < row_size
    → copy_command (pre ++ (c ++ t)) (length pre) (length pre + length c) ≡ some c
unfolding copy_command
copy_segment pre c t h =
    let e : length pre + length c - length pre ≡ length c = omega arith in
    let b : ltb (length c) row_size ≡ true = ground arith in rw (e, b, take-segment pre c t) refl

plain_copied : (c : List Word) → All IsPlain c → map (λ w. if is_separator w then [] else w) c ≡ c
plain_copied [] a = refl
plain_copied (w ∷ c) a = rw (a.0.0, plain_copied c a.1) refl

output_redirection-last :
    (pre c : List Word) (s : Filter)
    → All IsPlain c
    → length c < row_size
    → s.last_pipe + 1 ≡ length pre
    → output_redirection (pre ++ c) s
      ≡ some (s.commands ++ c ∷ [], output_redirected (pre ++ c) s.pipearg_count, length (pre ++ c))
unfolding output_redirection
output_redirection-last pre c s a h l =
    let e : length (pre ++ c) - length pre ≡ length c = omega (arith, length-append pre c) in
    let b : ltb (length c) row_size ≡ true = ground arith in
    rw (l, e, b, drop-segment pre c, plain_copied c a) refl

abbrev pub IsPart : Word × List Word → Type 0
IsPart (sep, c) = (is_separator sep ≡ true) × (All IsPlain c × (length c < row_size))

abbrev pub parts : List (Word × List Word) → List (List Word)
parts [] = []
parts ((sep, c) ∷ r) = c ∷ parts r

-- From the first argument behind a separator.
filter_from-join :
    (args pre c : List Word) (r : List (Word × List Word)) (s : Filter)
    → args ≡ pre ++ (c ++ join r)
    → s.last_pipe + 1 ≡ length pre
    → s.last_pipe ≢ 0
    → s.pipearg_count ≡ length pre
    → s.redirection_in_pipe ≡ false
    → ((i : ℕ) → input_redirected args i ≡ false)
    → All IsPlain c
    → length c < row_size
    → All IsPart r
    → (filter_from args (length pre) (c ++ join r) s >>= λ t. output_redirection args t)
      ≡ some (s.commands ++ c ∷ parts r, output_redirected args (length args), length args)
unfolding filter_from
filter_from-join args pre c [] s e l z n d q a h b =
    let e1 : args ≡ pre ++ c = e ∙ ap (λ x. pre ++ x) (append-nil c) in
    let m : s.pipearg_count + length c ≡ length (pre ++ c) = omega (arith, length-append pre c) in
    let t : Filter = record s { pipearg_count = s.pipearg_count + length c } in
    rw (filter_from-words args (length pre) c [] s a, e1, output_redirection-last pre c t a h l, m)
      refl
filter_from-join args pre c ((sep, u) ∷ r) s e l z n d q a h b =
    let i : ℕ = length pre + length c in
    let pre2 : List Word = pre ++ (c ++ sep ∷ []) in
    let t : Filter = record s { pipearg_count = s.pipearg_count + length c } in
    let k : copy_command args (if t.last_pipe == 0 then 0 else t.last_pipe + 1) i ≡ some c =
      let f : (s.last_pipe == 0) ≡ false = ground arith in
      rw (f, l, e) (copy_segment pre c (sep ∷ (u ++ join r)) h) in
    let o : i + 1 ≡ length pre2 =
      omega (arith, length-append pre (c ++ sep ∷ []), length-append c (sep ∷ [])) in
    let e2 : args ≡ pre2 ++ (u ++ join r) =
      e
      ∙ rw (append_assoc pre (c ++ sep ∷ []) (u ++ join r), append_assoc c (sep ∷ []) (u ++ join r))
          refl in
    let ih =
      filter_from-join args pre2 u r (behind t c i) e2 o (omega arith) (omega arith) d q b.0.1.0
        b.0.1.1 b.1 in
    rw
      (
        filter_from-words args (length pre) c (sep ∷ (u ++ join r)) s a,
        filter_from-separator args i sep (u ++ join r) c t b.0.0 (q i) d k,
        o,
        ih,
        append_assoc s.commands (c ∷ []) (u ∷ parts r),
      )
      refl

NoInput : List Word → Type 0
NoInput = All (λ w. str_eq w (codes "<") ≡ false)

get_or-NoInput : (ws : List Word) (i : ℕ) → NoInput ws → str_eq (get_or ws i []) (codes "<") ≡ false
unfolding NoInput str_eq
get_or-NoInput [] i a = refl
get_or-NoInput (w ∷ ws) zero a = a.0
get_or-NoInput (w ∷ ws) (suc i) a = get_or-NoInput ws i a.1

input_redirected-NoInput : (ws : List Word) (i : ℕ) → NoInput ws → input_redirected ws i ≡ false
unfolding input_redirected
input_redirected-NoInput ws i a = rw (get_or-NoInput ws (i - 2) a) (ground arith)

sign_plain : is_separator (codes "<") ≢ true
unfolding is_separator str_eq
sign_plain p = cc

length-nonempty : {A : Type 0} (c : List A) → c ≢ [] → length c ≢ 0
length-nonempty [] h = absurd (h refl)
length-nonempty (x ∷ c) h = omega arith

separator_other : (w : Word) → is_separator w ≡ true → str_eq w (codes "<") ≡ false
separator_other w h = elim (Bool-cases (str_eq w (codes "<"))) [
  | inl e ↦ absurd (sign_plain (subst (λ v. is_separator v ≡ true) (str_eq→eq w (codes "<") e) h))
  | inr e ↦ e
]

append-NoInput : (c ws : List Word) → All IsPlain c → NoInput ws → NoInput (c ++ ws)
unfolding NoInput
append-NoInput [] ws a b = b
append-NoInput (w ∷ c) ws a b = (a.0.1, append-NoInput c ws a.1 b)

join-NoInput : (r : List (Word × List Word)) → All IsPart r → NoInput (join r)
unfolding NoInput
join-NoInput [] a = tt
join-NoInput ((sep, c) ∷ r) a =
    (separator_other sep a.0.0, append-NoInput c (join r) a.0.1.0 (join-NoInput r a.1))

-- No word behind a separator is the sign of an input redirection.
pub input_redirected-join :
    (c : List Word) (sep : Word) (u : List Word) (r : List (Word × List Word)) (i : ℕ)
    → All IsPlain c
    → All IsPart ((sep, u) ∷ r)
    → input_redirected (c ++ join ((sep, u) ∷ r)) i ≡ false
input_redirected-join c sep u r i a b =
    input_redirected-NoInput (c ++ join ((sep, u) ∷ r)) i
      (append-NoInput c (join ((sep, u) ∷ r)) a (join-NoInput ((sep, u) ∷ r) b))

-- A line of commands with separators between them, at least one, is cut into these commands again,
-- where the first is not empty, each has fewer than 20 words, and no word of them is a separator or
-- `<`. The output is redirected where the last word but one is `>` or `>>`. The entry of the freed
-- row that is set to NULL is the number of all words.
pub pipe_filter-join :
    (c : List Word) (sep : Word) (u : List Word) (r : List (Word × List Word))
    → c ≢ []
    → All IsPlain c
    → length c < row_size
    → All IsPart ((sep, u) ∷ r)
    → let args = c ++ join ((sep, u) ∷ r) in
      (pipe_filter args >>= λ s. output_redirection args s)
      ≡ some (c ∷ u ∷ parts r, output_redirected args (length args), length args)
unfolding pipe_filter
pipe_filter-join c sep u r z a h b =
    let args : List Word = c ++ join ((sep, u) ∷ r) in
    let q : (i : ℕ) → input_redirected args i ≡ false =
      λ i. input_redirected-join c sep u r i a b in
    let t : Filter = record no_commands { pipearg_count = length c } in
    let o : length c + 1 ≡ length (c ++ sep ∷ []) = omega (arith, length-append c (sep ∷ [])) in
    let e : args ≡ (c ++ sep ∷ []) ++ (u ++ join r) =
      sym (append_assoc c (sep ∷ []) (u ++ join r)) in
    let z0 : 0 + length c ≡ length c = omega arith in
    let k : copy_command args 0 (length c) ≡ some c =
      subst (λ i. copy_command args 0 i ≡ some c) z0 (copy_segment [] c (sep ∷ (u ++ join r)) h) in
    let n : length c ≢ 0 = length-nonempty c z in
    let ih =
      subst
        (λ i.
          (filter_from args i (u ++ join r) (behind t c (length c)) >>= λ s.
          output_redirection args s)
          ≡ some (c ∷ u ∷ parts r, output_redirected args (length args), length args))
        (sym o)
        (filter_from-join args (c ++ sep ∷ []) u r (behind t c (length c)) e o n o refl q b.0.1.0
          b.0.1.1 b.1) in
    rw
      (
        filter_from-words args 0 c (sep ∷ (u ++ join r)) no_commands a,
        z0,
        filter_from-separator args (length c) sep (u ++ join r) c t b.0.0 (q (length c)) refl k,
        ih,
      )
      refl
