-- ===== src/MyShell/Pipes.antt =====
-- MyShell/shell.c: `count_pipes`, `pipe_filter` and `output_redirection`, which cut the argument
-- vector of a line with pipes into the commands between them. The arguments are the strings before
-- the NULL. The commands are run by `executePipe` (Execute). The
-- write of `output_redirection` to the row of `commands` that it has freed is a value here, the entry
-- that is written; what `free` keeps in the block is not modelled.
pub mod Split
use network_programming_c.Prelude.{
  ℕ, ◌+◌, ◌-◌, ◌<◌, Bool, true, false, ◌||◌, ◌&&◌, not, Option, none, some, ◌>>=◌, List, [], ◌∷◌,
  ◌++◌, length, get_or, take, drop, map, ◌==◌, ltb, leb, if◌then◌else◌, str_eq, codes,
}

pub data PipeType : Type 0 where
  no_pipe : PipeType
  pipe : PipeType
  msg : PipeType
  shm : PipeType

abbrev pub Word : Type 0
Word = List ℕ

-- The word and its zero fit a string that `malloc` was asked one byte for; `usable` is as in Args.
abbrev pub fits_string : (ℕ → ℕ) → Word → Bool
fits_string usable w = ltb (length w) (usable 1)

abbrev pub all_fit : (ℕ → ℕ) → List Word → Bool
all_fit usable [] = true
all_fit usable (w ∷ ws) = fits_string usable w && all_fit usable ws

unfoldable pub is_separator : Word → Bool
is_separator w = str_eq w (codes "|") || (str_eq w (codes "#") || str_eq w (codes "S"))

-- How many separators the arguments have, and which was the last.
unfoldable pub count_pipes : ℕ → PipeType → List Word → ℕ × PipeType
unfolding is_separator
count_pipes counter t [] = (counter, t)
count_pipes counter t (w ∷ ws) =
    if is_separator w
    then count_pipes (counter + 1)
        (if str_eq w (codes "|") then pipe else (if str_eq w (codes "#") then msg else shm)) ws
    else count_pipes counter t ws

-- The globals that the two functions share. `pipeCount` is the length of `commands`.
pub record Filter : Type 0 where
  pub commands : List (List Word)
  pub pipearg_count : ℕ
  pub last_pipe : ℕ
  pub redirection_in_pipe : Bool
  pub bad_redirect_pipe : Bool

abbrev pub no_commands : Filter
no_commands = record {
  commands = [];
  pipearg_count = 0;
  last_pipe = 0;
  redirection_in_pipe = false;
  bad_redirect_pipe = false;
}

-- The rows of `commands`: 20 pointers each, the last that is used a NULL. A longer command is
-- written behind its row, which is `none`.
abbrev pub row_size : ℕ
row_size = 20

unfoldable pub copy_command : List Word → ℕ → ℕ → Option (List Word)
copy_command args from to =
    if ltb (to - from) row_size then some (take (to - from) (drop from args)) else none

-- At a separator: where the command before it starts, and its copy.
unfoldable pub cut_command : List Word → ℕ → Filter → Option Filter
unfolding copy_command
cut_command args i s =
    copy_command args (if s.last_pipe == 0 then 0 else s.last_pipe + 1) i >>= λ c.
    some (record s { commands = s.commands ++ c ∷ []; last_pipe = i })

-- `i > 2 && strcmp(argVector[i-2], "<") == 0`.
unfoldable pub input_redirected : List Word → ℕ → Bool
input_redirected args i = ltb 2 i && str_eq (get_or args (i - 2) []) (codes "<")

-- The loop of `pipe_filter`, from the argument at `i`. A second input redirection ends it.
unfoldable pub filter_from : List Word → ℕ → List Word → Filter → Option Filter
unfolding is_separator cut_command input_redirected
filter_from args i [] s = some s
filter_from args i (w ∷ rest) s =
    let s1 : Filter = record s { pipearg_count = s.pipearg_count + 1 } in
    let red : Bool = input_redirected args i in
    if not (is_separator w)
    then filter_from args (i + 1) rest s1
    else (if red && s.redirection_in_pipe
        then some (record s1 { bad_redirect_pipe = true })
        else (cut_command args i (record s1 { redirection_in_pipe = s.redirection_in_pipe || red })
            >>= λ s2. filter_from args (i + 1) rest s2))

unfoldable pub pipe_filter : List Word → Option Filter
unfolding filter_from
pipe_filter args = filter_from args 0 args no_commands

-- `>` or `>>` stands before the last argument, of those that were counted.
unfoldable pub output_redirected : List Word → ℕ → Bool
output_redirected args count =
    leb 2 count
    && (str_eq (get_or args (count - 2) []) (codes ">")
        || str_eq (get_or args (count - 2) []) (codes ">>"))

-- The commands with the last, whether the output is redirected, and the entry of the row behind the
-- last command that is set to NULL when the row has been freed: the index of the NULL of the
-- arguments. The block of the row has `row_size` entries. Separators are not copied: their place
-- keeps the empty string.
unfoldable pub output_redirection : List Word → Filter → Option (List (List Word) × Bool × ℕ)
unfolding is_separator output_redirected
output_redirection args s =
    let from : ℕ = s.last_pipe + 1 in
    let last : List Word = map (λ w. if is_separator w then [] else w) (drop from args) in
    if ltb (length args - from) row_size
    then some (s.commands ++ last ∷ [], output_redirected args s.pipearg_count, length args)
    else none
