-- ===== src/BigFileSystem/Paths.antt =====
-- BigFileSystem/filenameserver.c: the components of a path, and `path_split`.
use network_programming_c.Prelude.{
  ℕ, ◌+◌, ◌<◌, ◌≡◌, refl, sym, true, false, some, List, [], ◌∷◌, ◌++◌, append-nil, append_assoc,
  length, length-append, ◌==◌, ltb, arith, All,
}
use network_programming_c.BigFileSystem.{rows, split_from, path_split}

abbrev pub NoDelim : ℕ → List ℕ → Type 0
NoDelim delim = All (λ c. (c == delim) ≡ false)

-- Components with the delimiter behind each, and a rest.
abbrev pub join : ℕ → List (List ℕ) → List ℕ → List ℕ
join delim [] last = last
join delim (d ∷ dirs) last = d ++ (delim ∷ join delim dirs last)

split_from-component :
    (delim : ℕ) (op : List (List ℕ)) (current d path : List ℕ)
    → length op < rows
    → NoDelim delim d
    → split_from delim op current (d ++ path) ≡ split_from delim op (current ++ d) path
unfolding split_from
split_from-component delim op current [] path h a = rw (append-nil current) refl
split_from-component delim op current (c ∷ d) path h a =
    let b : ltb (length op) rows ≡ true = ground arith in
    rw
      (
        b,
        a.0,
        split_from-component delim op (current ++ c ∷ []) d path h a.1,
        append_assoc current (c ∷ []) d,
      )
      refl

split_from-join :
    (delim : ℕ) (op dirs : List (List ℕ)) (last : List ℕ)
    → length op + length dirs < rows
    → All (NoDelim delim) dirs
    → NoDelim delim last
    → split_from delim op [] (join delim dirs last) ≡ some (op ++ dirs)
unfolding split_from
split_from-join delim op [] last h a l =
    rw
      (
        sym (append-nil last),
        split_from-component delim op [] last [] (omega arith) l,
        append-nil op,
      )
      refl
split_from-join delim op (d ∷ dirs) last h a l =
    let small : length op < rows = omega arith in
    let b : ltb (length op) rows ≡ true = ground arith in
    let e : (delim == delim) ≡ true = ground arith in
    let n : length (op ++ d ∷ []) ≡ length op + 1 = length-append op (d ∷ []) in
    rw
      (
        split_from-component delim op [] d (delim ∷ join delim dirs last) small a.0,
        b,
        e,
        split_from-join delim (op ++ d ∷ []) dirs last (omega arith) a.1 l,
        append_assoc op (d ∷ []) dirs,
      )
      refl

-- A path of fewer than 256 components, each with the delimiter behind it, is split into these
-- components. What stands behind the last delimiter is left out.
pub path_split-join :
    (delim : ℕ) (dirs : List (List ℕ)) (last : List ℕ)
    → length dirs < rows
    → All (NoDelim delim) dirs
    → NoDelim delim last
    → path_split (join delim dirs last) delim ≡ some dirs
unfolding path_split
path_split-join delim dirs last h a l = split_from-join delim [] dirs last (omega arith) a l
