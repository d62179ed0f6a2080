-- ===== src/MyShell/Lines/Directory.antt =====
-- MyShell/shell.c: the directory that the prompt shows.
use network_programming_c.Prelude.{
  ℕ, ◌+◌, ◌<◌, ◌≡◌, ◌≢◌, refl, sym, ap, true, false, List, [], ◌∷◌, ◌++◌, length, length-append,
  append_assoc, set, All, ◌==◌, arith, c_string, c_string-append, has_prefix, has_prefix-append,
  drop-append,
}
use network_programming_c.MyShell.Lines.{contains, shorten_from, replace_substring}

contains_start : (home rest : List ℕ) → contains (home ++ rest) home ≡ true
unfolding contains has_prefix
contains_start [] [] = refl
contains_start [] (c ∷ rest) = refl
contains_start (a ∷ home) rest = ground (arith, has_prefix-append home rest)

set-append :
    (pre : List ℕ) (t c : ℕ) (tail : List ℕ)
    → set (pre ++ t ∷ tail) (length pre) c ≡ pre ++ c ∷ tail
set-append [] t c tail = refl
set-append (x ∷ pre) t c tail = ap (λ l. x ∷ l) (set-append pre t c tail)

-- The loop copies what is ahead, and a zero behind it.
shorten_from_lem :
    (str ahead pre tail : List ℕ)
    → length ahead < length str
    → length ahead < length tail
    → (junk : List ℕ) × (shorten_from str ahead (pre ++ tail) (length pre)
        ≡ pre ++ (ahead ++ 0 ∷ junk))
unfolding shorten_from
shorten_from_lem [] ahead pre tail h k = absurd (omega arith)
shorten_from_lem (x ∷ str) ahead pre [] h k = absurd (omega arith)
shorten_from_lem (x ∷ str) [] pre (t ∷ tail) h k = (tail, set-append pre t 0 tail)
shorten_from_lem (x ∷ str) (c ∷ ahead) pre (t ∷ tail) h k =
    let (junk, e) = shorten_from_lem str ahead (pre ++ c ∷ []) tail (omega arith) (omega arith) in
    let n : length pre + 1 ≡ length (pre ++ c ∷ []) = omega (arith, length-append pre (c ∷ [])) in
    (
      junk,
      rw
          (
            set-append pre t c tail,
            n,
            sym (append_assoc pre (c ∷ []) tail),
            e,
            append_assoc pre (c ∷ []) (ahead ++ 0 ∷ junk),
          )
          refl,
    )

-- A directory below the home directory, whose name has at least two bytes, is shown as `~` and what
-- is behind the home directory, where this fits into the buffer.
pub replace_substring-home :
    (a b : ℕ) (home rest directory : List ℕ)
    → All (λ c. c ≢ 0) rest
    → length rest + 1 < length directory
    → c_string (replace_substring (a ∷ b ∷ home) (a ∷ b ∷ home ++ rest) directory) ≡ b'~' ∷ rest
unfolding replace_substring
replace_substring-home a b home rest [] nz h = absurd (omega arith)
replace_substring-home a b home rest (x ∷ []) nz h = absurd (omega arith)
replace_substring-home a b home [] (x ∷ y ∷ directory) nz h =
    let found = contains_start (a ∷ b ∷ home) [] in
    let same : (length (a ∷ b ∷ home ++ []) == length (a ∷ b ∷ home)) ≡ true =
      ground (arith, length-append home []) in
    rw (found, same) refl
replace_substring-home a b home (c ∷ rest) (x ∷ y ∷ directory) nz h =
    let found = contains_start (a ∷ b ∷ home) (c ∷ rest) in
    let l = length-append home (c ∷ rest) in
    let other : (length (a ∷ b ∷ home ++ c ∷ rest) == length (a ∷ b ∷ home)) ≡ false =
      ground (arith, l) in
    let (junk, e) =
      shorten_from_lem (b ∷ home ++ c ∷ rest) (c ∷ rest) (b'~' ∷ []) (y ∷ directory)
        (omega (arith, l)) (omega arith) in
    rw (found, other, drop-append home (c ∷ rest), e)
      (ap (λ s. b'~' ∷ s) (c_string-append (c ∷ rest) junk nz))
