-- ===== src/ClusterShell/Relay/Keeps.antt =====
-- ClusterShell/clustershell_server.c: what `recvmg` leaves alone while it handles a message.
use network_programming_c.Prelude.{
  ℕ, ◌≡◌, refl, inl, inr, Option, none, some, Option-cases, List, [], ◌∷◌, length, ltb, if-holds,
  has_prefix, codes, Ensures, bind-Ensures, ◌&&◌,
}
use network_programming_c.ClusterShell.Relay.{
  Server, Thread, Sent, Relayed, text, route_from, relay, command, star, answer_star, received,
  receives,
}

-- What a message does not change.
abbrev pub Keeps : Server → Thread → Relayed → Type 0
Keeps s t (s', t', sent) =
    (s'.client_list ≡ s.client_list)
    × (s'.client_fds ≡ s.client_fds)
    × (s'.n ≡ s.n)
    × (s'.client_sock ≡ s.client_sock)
    × (t'.sock ≡ t.sock)

star-Keeps :
    (s s0 : Server) (t : Thread) (sent : List Sent)
    → Keeps s0 t (s, t, sent)
    → Keeps s0 t (star s t sent)
unfolding star
star-Keeps s s0 t sent k =
    if-holds (Keeps s0 t) (has_prefix (codes "n*.") (text t.msg) && ltb 3 (length (text t.msg))) _ _
      k k

command-Keeps : (s : Server) (t : Thread) → Keeps s t (command s t)
unfolding command
command-Keeps s t = elim (Option-cases (route_from s.nodes 0 s.client_fds t.msg)) [
  | inl e ↦ rw (command, e) (star-Keeps s s t [] (refl, refl, refl, refl, refl))
  | inr (m, e) ↦
      rw (command, e)
        (star-Keeps (record s { send_to_fd = some t.sock }) s t (m ∷ [])
          (refl, refl, refl, refl, refl))
]

answer_star-Keeps : (s : Server) (t : Thread) (fd : ℕ) → Keeps s t (answer_star s t fd)
unfolding answer_star
answer_star-Keeps s t fd =
    if-holds (Keeps s t) (ltb 0 t.counter) _ _ (refl, refl, refl, refl, refl)
      (refl, refl, refl, refl, refl)

waiting-Keeps :
    (s : Server) (t : Thread) (o : Option ℕ)
    → Keeps s t (elim o [ some fd ↦ answer_star s t fd | none ↦ command s t ])
waiting-Keeps s t none = command-Keeps s t
waiting-Keeps s t (some fd) = answer_star-Keeps s t fd

relay-Keeps : (s : Server) (t : Thread) → Keeps s t (relay s t)
unfolding relay
relay-Keeps s t =
    if-holds (Keeps s t) (has_prefix (codes "nodes") (text t.msg)) _ _
      (refl, refl, refl, refl, refl)
      (elim (Option-cases s.send_to_fd) [
        | inl e ↦ rw (relay, e) (waiting-Keeps s t s.send_to_fd_star)
        | inr (fd, e) ↦ rw (relay, e) (refl, refl, refl, refl, refl)
      ])

pub receives-Keeps :
    (s : Server) (t : Thread) (bytes : List ℕ) → Ensures (Keeps s t) (receives s t bytes)
unfolding receives
receives-Keeps s t bytes =
    bind-Ensures (Keeps s t) (received bytes t.msg) _
      (λ msg e. relay-Keeps s (record t { msg = msg }))
