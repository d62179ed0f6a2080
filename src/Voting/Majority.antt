-- ===== src/Voting/Majority.antt =====
-- The decision of a vote, against the numbers that were drawn.
use network_programming_c.Prelude.{
  ℕ, zero, suc, ◌+◌, ◌*◌, ◌%◌, ◌≤◌, ◌≡◌, refl, ◌⊎◌, inl, inr, Bool, true, false, some, List, [],
  ◌∷◌, ltb, leb, ◌==◌, if◌then◌else◌, length, Bool-cases, str_eq, codes, arith,
}
use network_programming_c.MyShell.Lines.{cut_newline}
use network_programming_c.MyShell.Commands.{atoi}
use network_programming_c.Voting.{
  perform_vote, vote_text, collect_votes, Decision, one_is_majority, zero_is_majority, equal,
  decide, vote_round, int_size,
}

-- How many odd numbers there are.
abbrev pub count_odd : List ℕ → ℕ
count_odd [] = 0
count_odd (n ∷ ns) = n % 2 + count_odd ns

-- The decision for so many ones among so many votes.
abbrev pub majority : ℕ → ℕ → Decision
majority ones votes =
    if ltb votes (2 * ones)
    then one_is_majority
    else (if ltb (2 * ones) votes then zero_is_majority else equal)

abbrev odds : List ℕ → List ℕ
odds [] = []
odds (n ∷ ns) = n % 2 ∷ odds ns

odd-cases : (n : ℕ) → (n % 2 ≡ 0) ⊎ (n % 2 ≡ 1)
odd-cases n = elim (Bool-cases (n % 2 == 0)) [
  | inl t ↦ inl (ground arith)
  | inr t ↦ inr (ground arith)
]

-- A vote arrives as it was cast.
atoi-vote_text : (text : List ℕ) (n : ℕ) → atoi (vote_text text (perform_vote n)) ≡ n % 2
unfolding vote_text perform_vote atoi
atoi-vote_text text n = elim (odd-cases n) [ inl e ↦ rw (e) refl | inr e ↦ rw (e) refl ]

-- `votes` has room for so many numbers.
abbrev pub HasRoom : (ℕ → ℕ) → ℕ → Type 0
HasRoom usable n = int_size * n ≤ usable int_size

collect_votes-odds :
    (usable : ℕ → ℕ) (i : ℕ) (text : List ℕ) (ns : List ℕ)
    → HasRoom usable (i + length ns)
    → collect_votes usable i text ns ≡ some (odds ns)
unfolding collect_votes
collect_votes-odds usable i text [] h = refl
collect_votes-odds usable i text (n ∷ ns) h =
    let room : leb (int_size * (i + 1)) (usable int_size) ≡ true = ground arith in
    let reply : List ℕ = vote_text text (perform_vote n) in
    rw (room, atoi-vote_text text n, collect_votes-odds usable (i + 1) reply ns (omega arith)) refl

decide-odds :
    (a b : ℕ) (ns : List ℕ) → decide a b (odds ns) ≡ majority (a + count_odd ns) (a + b + length ns)
unfolding decide
decide-odds a b [] = elim (Bool-cases (ltb b a)) [
  | inl t ↦ let e : ltb (a + b + 0) (2 * (a + 0)) ≡ true = ground arith in rw (t, e) refl
  | inr t ↦
      let e : ltb (a + b + 0) (2 * (a + 0)) ≡ false = ground arith in
      elim (Bool-cases (ltb a b)) [
        | inl u ↦
            let f : ltb (2 * (a + 0)) (a + b + 0) ≡ true = ground arith in rw (t, e, u, f) refl
        | inr u ↦
            let f : ltb (2 * (a + 0)) (a + b + 0) ≡ false = ground arith in rw (t, e, u, f) refl
      ]
]
decide-odds a b (n ∷ ns) = elim (odd-cases n) [
  | inl o ↦
      let x : a + (0 + count_odd ns) ≡ a + count_odd ns = omega arith in
      let y : a + b + suc (length ns) ≡ a + (b + 1) + length ns = omega arith in
      rw (o, x, y) (decide-odds a (b + 1) ns)
  | inr o ↦
      let x : a + (1 + count_odd ns) ≡ a + 1 + count_odd ns = omega arith in
      let y : a + b + suc (length ns) ≡ a + 1 + b + length ns = omega arith in
      rw (o, x, y) (decide-odds (a + 1) b ns)
]

-- The decision is what the majority of the numbers drawn says, an odd number for one, whatever was
-- read from the line.
pub vote_round-majority :
    (usable : ℕ → ℕ) (text : List ℕ) (ns : List ℕ)
    → HasRoom usable (length ns)
    → vote_round usable text ns ≡ some (majority (count_odd ns) (length ns))
unfolding vote_round
vote_round-majority usable text ns h =
    let x : 0 + count_odd ns ≡ count_odd ns = omega arith in
    let y : 0 + 0 + length ns ≡ length ns = omega arith in
    rw (collect_votes-odds usable 0 text ns (omega arith), decide-odds 0 0 ns, x, y) refl

-- How many lines say `vote` before the first that says `exit`.
abbrev pub votes_before_exit : List (List ℕ) → ℕ
votes_before_exit [] = 0
votes_before_exit (line ∷ lines) =
    let rest = votes_before_exit lines in
    if str_eq (cut_newline line) (codes "exit")
    then 0
    else (if str_eq (cut_newline line) (codes "vote") then suc rest else rest)

abbrev pub says_exit : List (List ℕ) → Bool
says_exit [] = false
says_exit (line ∷ lines) =
    let rest = says_exit lines in if str_eq (cut_newline line) (codes "exit") then true else rest

-- The majorities of so many rounds.
abbrev pub majorities : (ℕ → List ℕ) → ℕ → ℕ → List Decision
majorities draws round zero = []
majorities draws round (suc k) =
    majority (count_odd (draws round)) (length (draws round)) ∷ majorities draws (round + 1) k
