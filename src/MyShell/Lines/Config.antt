-- ===== src/MyShell/Lines/Config.antt =====
-- MyShell/shell.c: configuration files, put together from paths, and `setPATH` on them.
use network_programming_c.Prelude.{
  ℕ, ◌+◌, ◌≤◌, ◌<◌, ◌≡◌, refl, true, false, some, List, [], ◌∷◌, ◌++◌, length, length-append,
  append_assoc, append-nil, All, ◌==◌, ltb, ◌&&◌, arith,
}
use network_programming_c.MyShell.Lines.{newline, max_num_paths, path_size, path_from, set_path}

-- The paths, each with a newline behind it.
abbrev pub config : List (List ℕ) → List ℕ
config [] = []
config (p ∷ paths) = p ++ (newline ∷ config paths)

-- A path fits into its string, with the zero behind it, and holds no newline.
abbrev pub IsPath : List ℕ → Type 0
IsPath p = All (λ c. (c == newline) ≡ false) p × (length p < path_size)

path_from-path :
    (paths : List (List ℕ)) (current p file : List ℕ)
    → length paths < max_num_paths
    → length current + length p < path_size
    → All (λ c. (c == newline) ≡ false) p
    → path_from paths current (p ++ file) ≡ path_from paths (current ++ p) file
unfolding path_from
path_from-path paths current [] file h k a = rw (append-nil current) refl
path_from-path paths current (c ∷ p) file h k a =
    let room : (ltb (length paths) max_num_paths && ltb (length current) path_size) ≡ true =
      ground arith in
    let l = length-append current (c ∷ []) in
    rw
      (
        room,
        a.0,
        path_from-path paths (current ++ c ∷ []) p file h (omega (arith, l)) a.1,
        append_assoc current (c ∷ []) p,
      )
      refl

path_from-config :
    (done paths : List (List ℕ))
    → length done + length paths ≤ max_num_paths
    → All IsPath paths
    → path_from done [] (config paths) ≡ some (done ++ paths)
unfolding path_from
path_from-config done [] h a = rw (append-nil done) refl
path_from-config done (p ∷ paths) h a =
    let room : (ltb (length done) max_num_paths && ltb (length p) path_size) ≡ true =
      ground arith in
    let n : (newline == newline) ≡ true = refl in
    let l = length-append done (p ∷ []) in
    rw
      (
        path_from-path done [] p (newline ∷ config paths) (omega arith) (omega arith) a.0.0,
        room,
        path_from-config (done ++ p ∷ []) paths (omega (arith, l)) a.1,
        append_assoc done (p ∷ []) paths,
      )
      refl

-- A file of at most 100 paths, each of fewer than 50 bytes and with a newline behind it, gives
-- these paths in their order.
pub set_path-config :
    (paths : List (List ℕ))
    → length paths ≤ max_num_paths
    → All IsPath paths
    → set_path (config paths) ≡ some paths
unfolding set_path
set_path-config paths h a = path_from-config [] paths (omega arith) a
