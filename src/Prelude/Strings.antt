-- ===== src/Prelude/Strings.antt =====
-- C strings in memory, and what the programs use of the standard library on them.
use Prim.Native.Nat.{ℕ}
use mathlib.Core.Path.{◌≡◌, refl}
use mathlib.Core.Logic.{◌≢◌}
use mathlib.Core.Bool.{Bool, true, false, ◌&&◌}
use mathlib.Core.List.{List, [], ◌∷◌, ◌++◌}
use network_programming_c.Prelude.Lists.{All}
use native.Mathlib.Omega.{arith}
use network_programming_c.Prelude.Tests.{◌==◌, if◌then◌else◌}

-- The string at the front of the bytes, up to the first zero.
abbrev pub c_string : List ℕ → List ℕ
c_string [] = []
c_string (c ∷ s) = if c == 0 then [] else c ∷ c_string s

-- `strncmp(p, s, strlen(p)) == 0`.
unfoldable pub has_prefix : List ℕ → List ℕ → Bool
has_prefix [] s = true
has_prefix (a ∷ p) [] = false
has_prefix (a ∷ p) (b ∷ s) = a == b && has_prefix p s

pub has_prefix-append : (p s : List ℕ) → has_prefix p (p ++ s) ≡ true
unfolding has_prefix
has_prefix-append [] s = refl
has_prefix-append (a ∷ p) s = ground (arith, has_prefix-append p s)

pub c_string-append : (s junk : List ℕ) → All (λ c. c ≢ 0) s → c_string (s ++ 0 ∷ junk) ≡ s
c_string-append [] junk a = refl
c_string-append (c ∷ s) junk a = ground (arith, c_string-append s junk a.1)
