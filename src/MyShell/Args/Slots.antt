-- ===== src/MyShell/Args/Slots.antt =====
-- MyShell/shell.c: the slots of the argument vector that `initArgs` fills.
use network_programming_c.Prelude.{
  ℕ, ◌+◌, ◌≡◌, ◌≢◌, Bool, true, false, ◌&&◌, not, List, [], ◌∷◌, ◌++◌, ◌==◌, if◌then◌else◌, arith,
  length, length-append, All,
}
use network_programming_c.MyShell.Lines.{newline}
use network_programming_c.MyShell.Args.{
  space, peek, count_from, get_argument_length, Split, init_step, init_from, split_args,
}

abbrev pub one_if : Bool → ℕ
one_if true = 1
one_if false = 0

-- The line ends with a space.
abbrev pub ends_with_space : List ℕ → Bool
ends_with_space [] = false
ends_with_space (c ∷ []) = c == space
ends_with_space (c ∷ d ∷ s) = ends_with_space (d ∷ s)

-- The spaces with no space behind them.
unfoldable pub separators : List ℕ → ℕ
separators [] = 0
separators (c ∷ s) = one_if (c == space && not (peek s == space)) + separators s

abbrev counted : ℕ → ℕ → ℕ → ℕ
counted n c d = if c == space && (not (d == space) && not (d == 0)) then n + 1 else n

counted_lem : (n c d : ℕ) → d ≢ 0 → counted n c d ≡ n + one_if (c == space && not (d == space))
counted_lem n c d h = ground arith

pub count_from-separators :
    (n : ℕ) (s : List ℕ)
    → All (λ c. c ≢ 0) s
    → count_from n s + one_if (ends_with_space s) ≡ n + separators s
unfolding count_from separators
count_from-separators n [] a = omega arith
count_from-separators n (c ∷ []) a = ground arith
count_from-separators n (c ∷ d ∷ s) a =
    omega (arith, count_from-separators (counted n c d) (d ∷ s) a.1, counted_lem n c d a.1.0)

init_step-length :
    (t : Split) (c behind : ℕ)
    → length (init_step t c behind).filled + one_if (init_step t c behind).is_daemon
      ≡ length t.filled + one_if t.is_daemon + one_if (c == space && not (behind == space))
unfolding init_step
init_step-length t c behind = ground (arith, length-append t.filled (t.current ∷ []))

pub init_from-length :
    (t : Split) (s : List ℕ)
    → length (init_from t s).filled + one_if (init_from t s).is_daemon
      ≡ length t.filled + one_if t.is_daemon + 1 + separators s
unfolding init_from separators
init_from-length t [] = omega (arith, length-append t.filled (t.current ∷ []))
init_from-length t (c ∷ s) =
    omega (arith, init_from-length (init_step t c (peek s)) s, init_step-length t c (peek s))

-- With the word `daemonize` that is left out, the arguments of a string are as many as
-- `getArgumentLength` says of this string, and one more exactly where it ends with a space.
pub length-split_args :
    (s : List ℕ)
    → All (λ c. c ≢ 0) s
    → let t = split_args false s in
      length t.filled + one_if t.is_daemon ≡ get_argument_length s + one_if (ends_with_space s)
unfolding split_args get_argument_length
length-split_args s a = omega (
  arith,
  init_from-length (record { is_daemon = false; filled = []; current = [] }) s,
  count_from-separators 1 s a,
)

pub count_from-newline :
    (n : ℕ) (s : List ℕ)
    → count_from n (s ++ newline ∷ []) ≡ count_from n s + one_if (ends_with_space s)
unfolding count_from
count_from-newline n [] = omega arith
count_from-newline n (c ∷ []) = ground arith
count_from-newline n (c ∷ d ∷ s) = count_from-newline (counted n c d) (d ∷ s)

-- For a line with its newline, which `getArgumentLength` is given, and without it, which `initArgs`
-- is given: the arguments, with the word `daemonize` that is left out, are exactly as many as
-- `getArgumentLength` says. So the NULL behind them, at the index that is their number, is never
-- written behind the last slot.
pub length-line :
    (s : List ℕ)
    → All (λ c. c ≢ 0) s
    → let t = split_args false s in
      length t.filled + one_if t.is_daemon ≡ get_argument_length (s ++ newline ∷ [])
unfolding get_argument_length
length-line s a = omega (arith, length-split_args s a, count_from-newline 1 s)
