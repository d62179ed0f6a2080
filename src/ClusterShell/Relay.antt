-- ===== src/ClusterShell/Relay.antt =====
-- ClusterShell/clustershell_server.c: the globals of the server, the loop of `main` that accepts
-- clients (`accepts`), and the thread of a client, `recvmg`. A thread handles a message without
-- interruption by another thread. `accept` and `send` succeed, and no more than 4999 bytes of a
-- message are read at once: with 5000, `recvmg` writes a zero behind its buffer.
pub mod Replies
pub mod Broadcast
pub mod Keeps
pub mod Runs
use network_programming_c.Prelude.{
  ℕ, ◌+◌, ◌-◌, Bool, true, false, ◌&&◌, not, Option, none, some, ◌>>=◌, List, [], ◌∷◌, ◌++◌, length,
  map, get_or, set, take, drop, ltb, ◌==◌, if◌then◌else◌, has_prefix, c_string, codes,
}
use network_programming_c.ClusterShell.{Client, add_client, remove_client}
use network_programming_c.ClusterShell.Config.{max_nodes}

-- `none` stands for the -1 of `SEND_TO_FD` and `SEND_TO_FD_STAR`. `num_clients` stays 0.
pub record Server : Type 0 where
  pub nodes : List (List ℕ)
  pub client_list : List Client
  pub client_fds : List ℕ
  pub n : ℕ
  pub client_sock : ℕ
  pub send_to_fd : Option ℕ
  pub send_to_fd_star : Option ℕ

-- The locals of `recvmg`; `msg` is all of its buffer.
pub record Thread : Type 0 where
  pub sock : ℕ
  pub counter : ℕ
  pub msg : List ℕ

-- What a message leads to.
pub data Sent : Type 0 where
  prints_clients : Sent
  sends : ℕ → List ℕ → Sent

-- `main` adds the listening socket to the list of clients. `none` is a write behind `client_fds`.
unfoldable pub accepts : Server → ℕ → ℕ → ℕ → Option Server
accepts s sock client_sock addr =
    if ltb s.n max_nodes
    then some (record s {
      client_list = add_client 0 s.client_list sock addr;
      client_sock = client_sock;
      client_fds = set s.client_fds s.n client_sock;
      n = s.n + 1;
    })
    else none

-- A new thread reads the variable `Client_sock` of `main` when it begins to run.
unfoldable pub starts : Server → List ℕ → Thread
starts s memory = record { sock = s.client_sock; counter = 0; msg = memory }

-- `recv`, and the zero behind what it has read.
unfoldable pub received : List ℕ → List ℕ → Option (List ℕ)
received bytes msg =
    if ltb (length bytes) (length msg)
    then some (bytes ++ 0 ∷ drop (length bytes + 1) msg)
    else none

-- The string from the third byte on.
abbrev pub text : List ℕ → List ℕ
text msg = c_string (drop 2 msg)

-- The loop over the names, from `i` on: the first name that the text begins with and whose client
-- is there.
unfoldable pub route_from : List (List ℕ) → ℕ → List ℕ → List ℕ → Option Sent
route_from [] i fds msg = none
route_from (node ∷ nodes) i fds msg =
    let rest = route_from nodes (i + 1) fds msg in
    if has_prefix node (text msg) && not (get_or fds i 0 == 0)
    then some (
        sends (get_or fds i 0)
          (take (length (text msg) - length node) (drop (3 + length node) msg)))
    else rest

-- `sendtoall`.
unfoldable pub send_to_all : Server → List ℕ → List Sent
send_to_all s msg = map (λ fd. sends fd msg) (take s.n s.client_fds)

abbrev pub Relayed : Type 0
Relayed = Server × Thread × List Sent

-- From the test of the text against `n*.` on.
unfoldable pub star : Server → Thread → List Sent → Relayed
unfolding send_to_all
star s t sent =
    if has_prefix (codes "n*.") (text t.msg) && ltb 3 (length (text t.msg))
    then (
      record s { send_to_fd_star = some t.sock },
      record t { counter = s.n },
      sent ++ send_to_all s (c_string (drop 5 t.msg)),
    )
    else (s, t, sent)

-- The message is a command.
unfoldable pub command : Server → Thread → Relayed
unfolding route_from star
command s t = elim (route_from s.nodes 0 s.client_fds t.msg) [
  | none ↦ star s t []
  | some m ↦ star (record s { send_to_fd = some t.sock }) t (m ∷ [])
]

-- The message is an answer to a command for all clients.
unfoldable pub answer_star : Server → Thread → ℕ → Relayed
answer_star s t fd =
    if ltb 0 t.counter
    then (s, record t { counter = t.counter - 1 }, sends fd (c_string t.msg) ∷ [])
    else (record s { send_to_fd_star = none }, t, [])

-- The body of the loop of `recvmg`, for the message in the buffer.
unfoldable pub relay : Server → Thread → Relayed
unfolding command answer_star
relay s t =
    if has_prefix (codes "nodes") (text t.msg)
    then (s, t, prints_clients ∷ [])
    else elim s.send_to_fd [
      | some fd ↦ (record s { send_to_fd = none }, t, sends fd (c_string t.msg) ∷ [])
      | none ↦ elim s.send_to_fd_star [ some fd ↦ answer_star s t fd | none ↦ command s t ]
    ]

unfoldable pub receives : Server → Thread → List ℕ → Option Relayed
receives s t bytes = received bytes t.msg >>= λ msg. some (relay s (record t { msg = msg }))

-- The end of `recvmg`.
unfoldable pub leaves : Server → Thread → Server
leaves s t = record s { client_list = remove_client s.client_list t.sock }
