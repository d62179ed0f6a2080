-- ===== src/MyShell/Lines.antt =====
-- MyShell/shell.c: `lineget`, `setPATH` and `replaceSubstring`, which read a line of input, the
-- configuration file and the name of the current directory. ClusterShell/clustershell_client.c has
-- the same functions.
pub mod Buffer
pub mod Config
pub mod Directory
use network_programming_c.Prelude.{
  ℕ, zero, suc, ◌+◌, ◌-◌, ◌*◌, Bool, true, false, ◌&&◌, ◌||◌, not, Option, none, some, ◌>>=◌, List,
  [], ◌∷◌, ◌++◌, length, set, drop, ◌==◌, ltb, leb, if◌then◌else◌, has_prefix,
}

abbrev pub newline : ℕ
newline = 10

-- `len` is how many more characters fit before the next `realloc`, `lenmax` the size of the buffer,
-- and `line` what it holds.
pub record Buffered : Type 0 where
  pub line : List ℕ
  pub len : ℕ
  pub lenmax : ℕ

abbrev pub start_buffer : Buffered
start_buffer = record { line = []; len = 300; lenmax = 300 }

-- The body of the loop for a character. `realloc` succeeds.
unfoldable pub put_char : Buffered → ℕ → Buffered
put_char b c =
    if b.len - 1 == 0
    then record { line = b.line ++ c ∷ []; len = b.lenmax; lenmax = 2 * b.lenmax }
    else record b { line = b.line ++ c ∷ []; len = b.len - 1 }

-- The loop, up to a newline or the end of the input; with the input that is left.
unfoldable pub get_from : Buffered → List ℕ → Buffered × List ℕ
get_from b [] = (b, [])
get_from b (c ∷ input) =
    let rest = get_from (put_char b c) input in if c == newline then (put_char b c, input) else rest

unfoldable pub lineget : List ℕ → Buffered × List ℕ
unfolding get_from
lineget input = get_from start_buffer input

-- The loop of `main` that ends the line at its newlines: what is left is the part before the first.
unfoldable pub cut_newline : List ℕ → List ℕ
cut_newline [] = []
cut_newline (c ∷ s) = let rest = cut_newline s in if c == newline then [] else c ∷ rest

abbrev pub max_num_paths : ℕ
max_num_paths = 100

abbrev pub path_size : ℕ
path_size = 50

-- `PATH` up to `PATH[pathLength - 1]`, and what `PATH[pathLength]` holds up to `j`. `none` is a
-- write out of the strings or of the vector, or a read behind a line with no newline at its end.
unfoldable pub path_from : List (List ℕ) → List ℕ → List ℕ → Option (List (List ℕ))
path_from paths current [] = elim current [ [] ↦ some paths | c ∷ r ↦ none ]
path_from paths current (c ∷ file) =
    let ends = path_from (paths ++ current ∷ []) [] file in
    let goes = path_from paths (current ++ c ∷ []) file in
    if ltb (length paths) max_num_paths && ltb (length current) path_size
    then (if c == newline then ends else goes)
    else none

-- The bytes of the file hold no zero. The length that is returned is that of the list.
unfoldable pub set_path : List ℕ → Option (List (List ℕ))
unfolding path_from
set_path file = path_from [] [] file

-- `strstr(str, home) != NULL`.
unfoldable pub contains : List ℕ → List ℕ → Bool
contains [] home = has_prefix home []
contains (c ∷ s) home = has_prefix home (c ∷ s) || contains s home

-- The loop, with the strings from `str[i]` and from `str[i + HOME_LEN - 1]`, and the bytes of
-- `current_directory`.
unfoldable pub shorten_from : List ℕ → List ℕ → List ℕ → ℕ → List ℕ
shorten_from [] ahead directory i = directory
shorten_from (x ∷ str) [] directory i = set directory i 0
shorten_from (x ∷ str) (c ∷ ahead) directory i = shorten_from str ahead (set directory i c) (i + 1)

-- The bytes of `current_directory` afterwards. A path with no home directory in it changes nothing.
unfoldable pub replace_substring : List ℕ → List ℕ → List ℕ → List ℕ
unfolding contains shorten_from
replace_substring home str directory =
    if contains str home
    then (if length str == length home
        then set (set directory 0 b'~') 1 0
        else shorten_from (drop 1 str) (drop (length home) str) (set directory 0 b'~') 1)
    else directory
