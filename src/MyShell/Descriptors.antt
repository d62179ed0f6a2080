-- ===== src/MyShell/Descriptors.antt =====
-- The descriptors of a process, as MyShell/shell.c uses them: `open`, `pipe`, `dup`, `dup2` and
-- `close` are calls of the kernel, and the definitions are what POSIX says of them.
pub mod Laws
use network_programming_c.Prelude.{
  ℕ, zero, suc, ◌+◌, Bool, true, false, ◌||◌, Option, none, some, List, [], ◌∷◌, get_or, ◌==◌,
}

-- What a descriptor stands for. A pipe has a number; a file has a name, and one that is written has
-- whether the output is added at its end.
pub data End : Type 0 where
  terminal : End
  read_end : ℕ → End
  write_end : ℕ → End
  input_file : List ℕ → End
  output_file : List ℕ → Bool → End
  null_device : End

-- The descriptors of a process; one that is closed is `none`.
abbrev pub Table : Type 0
Table = List (Option End)

abbrev pub at : Table → ℕ → Option End
at t i = get_or t i none

abbrev pub put_end : Table → ℕ → Option End → Table
put_end [] zero v = v ∷ []
put_end [] (suc i) v = none ∷ put_end [] i v
put_end (x ∷ t) zero v = v ∷ t
put_end (x ∷ t) (suc i) v = x ∷ put_end t i v

-- A new descriptor is the lowest that is free.
abbrev pub lowest : Table → ℕ
lowest [] = 0
lowest (none ∷ t) = 0
lowest (some x ∷ t) = suc (lowest t)

unfoldable pub alloc : Table → End → Table
alloc t e = put_end t (lowest t) (some e)

unfoldable pub close : Table → ℕ → Table
close t i = put_end t i none

-- Nothing is changed where the first descriptor is closed.
abbrev pub copy_to : Table → ℕ → Option End → Table
copy_to t to none = t
copy_to t to (some e) = put_end t to (some e)

unfoldable pub dup2 : Table → ℕ → ℕ → Table
dup2 t from to = copy_to t to (at t from)

unfoldable pub dup : Table → ℕ → Table
dup t i = copy_to t (lowest t) (at t i)

abbrev pub is_write_end : ℕ → Option End → Bool
is_write_end n (some (write_end m)) = n == m
is_write_end n none = false
is_write_end n (some terminal) = false
is_write_end n (some (read_end m)) = false
is_write_end n (some (input_file f)) = false
is_write_end n (some (output_file f a)) = false
is_write_end n (some null_device) = false

-- The process can write to the pipe.
abbrev pub writes_to : Table → ℕ → Bool
writes_to [] n = false
writes_to (x ∷ t) n = is_write_end n x || writes_to t n

abbrev pub count_open : Table → ℕ
count_open [] = 0
count_open (none ∷ t) = count_open t
count_open (some x ∷ t) = suc (count_open t)
