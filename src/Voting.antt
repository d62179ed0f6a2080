-- ===== src/Voting.antt =====
-- Voting System/vote.c: the votes of the children, the decision, and the loop of `main` over the
-- lines. A message is taken from the queue before the next child is forked, so the queue holds one
-- at most. `fork` and the calls on the queue succeed; the numbers that `rand` draws and the lines
-- that `lineget` returns are arguments. `malloc` is an argument as well, `usable`: so many bytes of
-- a block that it is asked for may be written. A write behind them is `none`.
pub mod Majority
mod Tests
use network_programming_c.Prelude.{
  ℕ, ◌+◌, ◌*◌, ◌%◌, Bool, true, false, Option, none, some, ◌>>=◌, List, [], ◌∷◌, ltb, leb, ◌==◌,
  if◌then◌else◌, str_eq, codes,
}
use network_programming_c.MyShell.Lines.{cut_newline}
use network_programming_c.MyShell.Commands.{atoi}

unfoldable pub perform_vote : ℕ → ℕ
perform_vote drawn = drawn % 2

-- The text of the child's message: that of the parent's, with the result copied to it.
unfoldable pub vote_text : List ℕ → ℕ → List ℕ
vote_text text result = if result == 0 then codes "0" else (if result == 1 then codes "1" else text)

-- The bytes of an `int`: `votes` is allocated for one, whatever the number of children is.
abbrev pub int_size : ℕ
int_size = 4

-- The loop over the children from the `i`th on: what is written to `votes`. The parent's message
-- has the text that it received last.
unfoldable pub collect_votes : (ℕ → ℕ) → ℕ → List ℕ → List ℕ → Option (List ℕ)
unfolding perform_vote vote_text
collect_votes usable i text [] = some []
collect_votes usable i text (drawn ∷ more) =
    let reply : List ℕ = vote_text text (perform_vote drawn) in
    let rest = collect_votes usable (i + 1) reply more in
    if leb (int_size * (i + 1)) (usable int_size)
    then (rest >>= λ votes. some (atoi reply ∷ votes))
    else none

pub data Decision : Type 0 where
  one_is_majority : Decision
  zero_is_majority : Decision
  equal : Decision

-- The counting loop, and the decision behind it.
unfoldable pub decide : ℕ → ℕ → List ℕ → Decision
decide one_count zero_count [] =
    if ltb zero_count one_count
    then one_is_majority
    else (if ltb one_count zero_count then zero_is_majority else equal)
decide one_count zero_count (v ∷ votes) =
    if v == 1
    then decide (one_count + 1) zero_count votes
    else decide one_count (zero_count + 1) votes

unfoldable pub vote_round : (ℕ → ℕ) → List ℕ → List ℕ → Option Decision
unfolding collect_votes decide
vote_round usable text draws =
    collect_votes usable 0 text draws >>= λ votes. some (decide 0 0 votes)

-- The decisions, and whether the program ends: without a line that says `exit`, `lineget` returns
-- the empty line for ever at the end of the input.
pub record Session : Type 0 where
  pub decisions : List Decision
  pub ends : Bool

-- The loop over the lines. `draws` has the numbers for each round, one for each child.
unfoldable pub session : (ℕ → ℕ) → (ℕ → List ℕ) → ℕ → List (List ℕ) → Option Session
unfolding vote_round
session usable draws round [] = some (record { decisions = []; ends = false })
session usable draws round (line ∷ lines) =
    let text : List ℕ = cut_newline line in
    let voted = session usable draws (round + 1) lines in
    let next = session usable draws round lines in
    if str_eq text (codes "exit")
    then some (record { decisions = []; ends = true })
    else (if str_eq text (codes "vote")
        then (vote_round usable text (draws round) >>= λ d.
            voted >>= λ v. some (record { decisions = d ∷ v.decisions; ends = v.ends }))
        else next)
