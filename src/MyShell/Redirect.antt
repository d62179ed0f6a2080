-- ===== src/MyShell/Redirect.antt =====
-- MyShell/shell.c: `redirection_with_pipes_and_ipc` and `execRedirect`. Each string is asked for
-- with one byte, and `array`, which keeps counts for freeing the rows, with one `int`; `usable` is
-- as in Args, and a write behind the usable bytes is `none`. The calls of `shellMsgQ` and
-- `shellShm` behind the cutting of the line are those of Shared.
pub mod Outputs
use network_programming_c.Prelude.{
  ℕ, ◌+◌, ◌-◌, ◌*◌, Bool, true, false, ◌&&◌, ◌||◌, Option, none, some, ◌>>=◌, List, [], ◌∷◌, ◌++◌,
  length, take, drop, ltb, leb, if◌then◌else◌, str_eq, codes,
}
use network_programming_c.MyShell.Pipes.{Word, fits_string, all_fit}

-- How the file is opened.
pub data Mode : Type 0 where
  overwrites : Mode
  reads : Mode
  appends : Mode

-- What the function finds. The rows are commands up to their NULL.
pub data Redirection : Type 0 where
  no_redirection : Redirection
  before_pipe : Redirection
  to_file : Mode → List Word → List Word → Redirection
  to_queues : List Word → List (List Word) → Redirection
  to_memory : List Word → List (List Word) → Redirection

abbrev pub is_output : Word → Bool
is_output w = str_eq w (codes ">") || str_eq w (codes ">>")

-- `redirectcmd1` and `redirectcmd2` have five strings; a copy to the NULL behind them is `none`.
unfoldable pub redirect_row : (ℕ → ℕ) → List Word → Option (List Word)
redirect_row usable ws = if leb (length ws) 5 && all_fit usable ws then some ws else none

abbrev pub output_rows : ℕ
output_rows = 20

abbrev pub output_size : ℕ
output_size = 5

-- The bytes of an `int`, and whether `array[k]` is in the block.
abbrev pub int_size : ℕ
int_size = 4

abbrev pub array_fits : (ℕ → ℕ) → ℕ → Bool
array_fits usable k = leb (int_size * (k + 1)) (usable int_size)

-- The loop over the commands that a comma parts, with the rows that are ended and the one that is
-- not. Behind a comma `array` is written at the old row and at the new one, and behind a word at
-- its row. A write out of the rows is `none`, and so is a last row with no word: it has no NULL.
unfoldable pub outputs_from :
    (ℕ → ℕ) → List (List Word) → List Word → List Word → Option (List (List Word))
outputs_from usable rows current [] =
    if ltb 0 (length current)
      && (ltb (length current) output_size && ltb (length rows + 1) output_rows)
    then some (rows ++ current ∷ [])
    else none
outputs_from usable rows current (w ∷ ws) =
    let ends = outputs_from usable (rows ++ current ∷ []) [] ws in
    let goes = outputs_from usable rows (current ++ w ∷ []) ws in
    if ltb (length rows) output_rows && ltb (length current) output_size
    then (if str_eq w (codes ",")
        then (if array_fits usable (length rows + 1) then ends else none)
        else (if fits_string usable w && array_fits usable (length rows) then goes else none))
    else none

-- The rows for `##` and `SS`, with the copy of the command.
unfoldable pub outputs : (ℕ → ℕ) → List Word → List Word → Option (List (List Word))
unfolding outputs_from
outputs usable cmd rest = if all_fit usable cmd then outputs_from usable [] [] rest else none

-- What is made of the operator `w` at `i`, with the arguments behind it.
unfoldable pub at_operator : (ℕ → ℕ) → List Word → ℕ → ℕ → Word → List Word → Option Redirection
unfolding redirect_row outputs
at_operator usable args last_pipe i w rest =
    if is_output w
    then (if leb i last_pipe
        then some before_pipe
        else (let from : ℕ = if ltb 0 last_pipe then last_pipe + 1 else 0 in
            redirect_row usable (take (i - from) (drop from args)) >>= λ cmd.
            redirect_row usable rest >>= λ file.
            some (to_file (if str_eq w (codes ">") then overwrites else appends) cmd file)))
    else (if str_eq w (codes "<")
        then (redirect_row usable (take i args) >>= λ cmd.
            redirect_row usable rest >>= λ file. some (to_file reads cmd file))
        else (if str_eq w (codes "##")
            then (outputs usable (take i args) rest >>= λ rows. some (to_queues (take i args) rows))
            else (outputs usable (take i args) rest >>= λ rows.
                some (to_memory (take i args) rows))))

unfoldable pub is_operator : Word → Bool
is_operator w =
    is_output w || (str_eq w (codes "<") || (str_eq w (codes "##") || str_eq w (codes "SS")))

-- The loop: the first operator ends it.
unfoldable pub redirection_from : (ℕ → ℕ) → List Word → ℕ → ℕ → List Word → Option Redirection
unfolding is_operator at_operator
redirection_from usable args last_pipe i [] = some no_redirection
redirection_from usable args last_pipe i (w ∷ rest) =
    let more = redirection_from usable args last_pipe (i + 1) rest in
    if is_operator w then at_operator usable args last_pipe i w rest else more

unfoldable pub redirection : (ℕ → ℕ) → List Word → ℕ → Option Redirection
unfolding redirection_from
redirection usable args last_pipe = redirection_from usable args last_pipe 0 args

-- What `execRedirect` does: a message, or a command run with a file as its input or output. Without
-- a name the file is not opened, and the command runs all the same.
pub data Run : Type 0 where
  only_to_file : Run
  no_such_file : Option Word → Run
  runs : Mode → Option Word → List Word → Run

abbrev pub first : List Word → Option Word
first [] = none
first (w ∷ ws) = some w

abbrev pub is_reads : Mode → Bool
is_reads reads = true
is_reads overwrites = false
is_reads appends = false

-- `exists` is what `access` says of a name; of NULL it says that there is no such file.
unfoldable pub exec_redirect : (Word → Bool) → Mode → List Word → List Word → Run
exec_redirect exists mode cmd file =
    if ltb 1 (length file)
    then only_to_file
    else (let missing : Bool = elim (first file) [
      | none ↦ true
      | some w ↦ if exists w then false else true
    ] in
        if is_reads mode && missing then no_such_file (first file) else runs mode (first file) cmd)
