-- ===== src/MyShell/Args.antt =====
-- MyShell/shell.c: `getArgumentLength` and `initArgs`, which split the command line. `malloc` is
-- an argument, `usable`: so many bytes of a block that it is asked for may be written. The string
-- of an argument is asked for with one byte; a write behind the bytes that are usable is `none`.
pub mod Slots
pub mod Words
use network_programming_c.Prelude.{
  ℕ, ◌+◌, Bool, true, false, ◌&&◌, ◌||◌, not, Option, none, some, List, [], ◌∷◌, ◌++◌, ltb, ◌==◌,
  if◌then◌else◌, str_eq, codes,
}

abbrev pub space : ℕ
space = b' '

-- The byte at the place, a zero at the end of the string.
abbrev pub peek : List ℕ → ℕ
peek [] = 0
peek (c ∷ s) = c

unfoldable pub count_from : ℕ → List ℕ → ℕ
count_from count [] = count
count_from count (c ∷ s) =
    count_from
      (if c == space && (not (peek s == space) && not (peek s == 0)) then count + 1 else count) s

unfoldable pub get_argument_length : List ℕ → ℕ
unfolding count_from
get_argument_length command = count_from 1 command

-- `argVector[0]` up to `argVector[count - 1]` are `filled`, and `current` is what
-- `argVector[count]` holds up to `j`.
pub record Split : Type 0 where
  pub is_daemon : Bool
  pub filled : List (List ℕ)
  pub current : List ℕ

abbrev pub is_empty {ℓ} : {A : Type ℓ} → List A → Bool
is_empty [] = true
is_empty (x ∷ xs) = false

-- The end of an argument. After a first argument `daemonize` the vector is filled anew.
unfoldable pub end_argument : Split → Split
end_argument t =
    if is_empty t.filled && (not t.is_daemon && str_eq t.current (codes "daemonize"))
    then record { is_daemon = true; filled = []; current = [] }
    else record { is_daemon = t.is_daemon; filled = t.filled ++ t.current ∷ []; current = [] }

-- The body of the loop, for the byte `c` and the one behind it.
unfoldable pub init_step : Split → ℕ → ℕ → Split
unfolding end_argument
init_step t c behind =
    if c == space && behind == space
    then t
    else (if c == space then end_argument t else record t { current = t.current ++ c ∷ [] })

unfoldable pub init_from : Split → List ℕ → Split
unfolding init_step
init_from t [] = record t { filled = t.filled ++ t.current ∷ []; current = [] }
init_from t (c ∷ s) = init_from (init_step t c (peek s)) s

-- The flag `is_daemon` and the arguments, where each has room. `count` is one less than their
-- number, and the NULL goes to the index that is their number.
unfoldable pub split_args : Bool → List ℕ → Split
unfolding init_from
split_args is_daemon buffer =
    init_from (record { is_daemon = is_daemon; filled = []; current = [] }) buffer

-- Whether the loop stays in the strings, from the place `j` of one on: each byte that it writes to
-- one, and the zero behind them.
unfoldable pub strings_fit : (ℕ → ℕ) → ℕ → List ℕ → Bool
strings_fit usable j [] = ltb j (usable 1)
strings_fit usable j (c ∷ s) =
    let skips : Bool = c == space && peek s == space in
    (skips || ltb j (usable 1))
    && strings_fit usable (if skips then j else (if c == space then 0 else j + 1)) s

unfoldable pub init_args : (ℕ → ℕ) → Bool → List ℕ → Option Split
unfolding split_args strings_fit
init_args usable is_daemon buffer =
    if strings_fit usable 0 buffer then some (split_args is_daemon buffer) else none
