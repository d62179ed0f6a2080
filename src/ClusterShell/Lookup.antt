-- ===== src/ClusterShell/Lookup.antt =====
-- ClusterShell/clustershell_server.c: the list of clients as a map from descriptors.
use network_programming_c.Prelude.{
  ℕ, ◌≡◌, refl, Option, none, some, List, [], ◌∷◌, ◌==◌, if◌then◌else◌, arith,
}
use network_programming_c.ClusterShell.{Client, remove_behind, remove_client}

-- The first client with the descriptor.
abbrev pub lookup : List Client → ℕ → Option Client
lookup [] q = none
lookup (c ∷ cs) q = if c.fd == q then some c else lookup cs q

-- No two clients have the same descriptor.
abbrev pub Distinct : List Client → Type 0
Distinct [] = Unit
Distinct (c ∷ cs) = (lookup cs c.fd ≡ none) × Distinct cs

remove_client-behind : (cs : List Client) (r : ℕ) → remove_client cs r ≡ remove_behind cs r
unfolding remove_client remove_behind
remove_client-behind [] r = refl
remove_client-behind (c ∷ []) r = refl
remove_client-behind (c ∷ d ∷ cs) r = refl

lookup-behind :
    (cs : List Client) (r q : ℕ)
    → Distinct cs
    → lookup (remove_behind cs r) q ≡ (if q == r then none else lookup cs q)
unfolding remove_behind
lookup-behind [] r q d = ground arith
lookup-behind (c ∷ cs) r q d =
    let gone : q ≡ c.fd → lookup cs q ≡ none = λ e. rw (e) d.0 in
    ground (arith, gone, lookup-behind cs r q d.1)

-- After a removal the descriptor has no client, and every other has the client it had, when the
-- clients have different descriptors.
pub lookup-remove_client :
    (cs : List Client) (r q : ℕ)
    → Distinct cs
    → lookup (remove_client cs r) q ≡ (if q == r then none else lookup cs q)
lookup-remove_client cs r q d = rw (remove_client-behind cs r) (lookup-behind cs r q d)
